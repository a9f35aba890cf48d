-- ===== src/Lounge/Places.antt =====
-- insert and erase of channel_list_impl, server/core/channel_list.cpp. `none` says that an assertion
-- fails: insert() asserts that the position is free, and erase() that there is one.
use beast_lounge.Base.{
  ℕ, suc, ◌-◌, ltb, List, ◌++◌, Option, none, some, length, replicate, get_or, set, if◌then◌else◌,
}
use beast_lounge.Boost.{Boost}
use beast_lounge.Lounge.{Channel, Lounge}

-- next_uid() and next_cid(): the counter, and the id that is handed out
abbrev pub next_id : ℕ → ℕ × ℕ
next_id counter = (suc counter, suc counter)

module _ ⦃B : Boost⦄ where
  -- v_.resize(max(cid + 1, v_.size()))
  unfoldable pub resized : ℕ → List (Option Channel) → List (Option Channel)
  resized cid v = v ++ replicate (suc cid - length v) none

  -- channel_list::insert(c)
  unfoldable pub insert_channel : Channel → Lounge → Option Lounge
  unfolding resized
  insert_channel c s =
      let v = resized c.cid s.channels in
      elim (get_or v c.cid none) [
        | some d ↦ none
        | none ↦ some (record s { channels = set v c.cid (some c) })
      ]

  -- channel_list::erase(c)
  unfoldable pub erase_channel : Channel → Lounge → Option Lounge
  erase_channel c s =
      if ltb c.cid (length s.channels)
      then some (record s { channels = set s.channels c.cid none })
      else none

  inserted : Channel → Lounge → Lounge
  inserted c s = record s { channels = set (resized c.cid s.channels) c.cid (some c) }

  erased : Channel → Lounge → Lounge
  erased c s = record s { channels = set s.channels c.cid none }
