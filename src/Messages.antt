-- ===== src/Messages.antt =====
-- The class message of server/core/message.hpp: handles that share a block with a reference count,
-- and make_message of server/core/message.cpp. The count is atomic, so each operation is one step.
pub mod Counted
pub mod Counts
pub mod Blocks
use Prim.Native.Nat.{◌/◌}
use Prim.Native.String.{String}
use beast_lounge.Base.{
  ℕ, suc, ◌+◌, ◌-◌, ◌*◌, Bool, true, false, ◌&&◌, List, [], ◌∷◌, ◌++◌, length, get_or, set, ltb,
  ◌==◌, if◌then◌else◌,
}

-- A block of the struct impl: how many times deallocate() was called of it is `frees`.
pub record Block : Type 0 where
  pub bytes : String
  pub count : ℕ
  pub frees : ℕ

-- `fresh` is the next address that is allocated, and each message is its p_, in which 0 is null. A
-- message that was destroyed counts as null.
pub record Memory : Type 0 where
  pub blocks : ℕ → Block
  pub fresh : ℕ
  pub messages : List ℕ

abbrev pub empty_memory : Memory
empty_memory = record {
  blocks = λ p. record { bytes = ""; count = 0; frees = 0 };
  fresh = 1;
  messages = [];
}

abbrev pub put : ℕ → Block → (ℕ → Block) → ℕ → Block
put p b blocks q = if q == p then b else blocks q

-- message() and message(buffers)
unfoldable pub null_message : Memory → Memory
null_message s = record s { messages = s.messages ++ 0 ∷ [] }

unfoldable pub construct : String → Memory → Memory
construct bytes s = record s {
  blocks = put s.fresh (record { bytes = bytes; count = 1; frees = 0 }) s.blocks;
  fresh = suc s.fresh;
  messages = s.messages ++ s.fresh ∷ [];
}

-- message(message const&)
unfoldable pub copy : ℕ → Memory → Memory
copy i s =
    let p = get_or s.messages i 0 in
    let b = s.blocks p in
    record s {
      blocks = if p == 0 then s.blocks else put p (record b { count = b.count + 1 }) s.blocks;
      messages = s.messages ++ p ∷ [];
    }

-- message(message&&)
unfoldable pub move : ℕ → Memory → Memory
move i s = record s { messages = set s.messages i 0 ++ get_or s.messages i 0 ∷ [] }

-- ~message()
unfoldable pub release : Block → Block
release b =
    let n = b.count - 1 in record b { count = n; frees = if n == 0 then b.frees + 1 else b.frees }

unfoldable pub destroy : ℕ → Memory → Memory
unfolding release
destroy i s =
    let p = get_or s.messages i 0 in
    record s {
      blocks = if p == 0 then s.blocks else put p (release (s.blocks p)) s.blocks;
      messages = set s.messages i 0;
    }

-- swap(lhs, rhs)
unfoldable pub exchange : ℕ → ℕ → Memory → Memory
exchange i j s = record s {
  messages = set (set s.messages i (get_or s.messages j 0)) j (get_or s.messages i 0);
}

-- make_message(jv), where the serializer has put `chunk` in the buffer, and says whether it is done
unfoldable pub make_message : String → Bool → Memory → Memory
unfolding null_message construct
make_message chunk is_done s = if is_done then construct chunk s else null_message s

-- The number of units of `size` bytes that are allocated for a block, and given back, which holds so
-- many bytes of data: size is sizeof(impl).
unfoldable pub units : ℕ → ℕ → ℕ
units size n = (2 * size + n - 1) / size

pub data Op : Type 0 where
  makes : String → Bool → Op
  copies moves destroys : ℕ → Op
  swaps : ℕ → ℕ → Op

-- An operation on messages; there is none on messages that do not exist.
unfoldable pub perform : Memory → Op → Memory
unfolding make_message copy move destroy exchange
perform s (makes chunk is_done) = make_message chunk is_done s
perform s (copies i) = if ltb i (length s.messages) then copy i s else s
perform s (moves i) = if ltb i (length s.messages) then move i s else s
perform s (destroys i) = if ltb i (length s.messages) then destroy i s else s
perform s (swaps i j) =
    if ltb i (length s.messages) && ltb j (length s.messages) then exchange i j s else s

unfoldable pub performed : List Op → Memory → Memory
unfolding perform
performed [] s = s
performed (op ∷ ops) s = performed ops (perform s op)
