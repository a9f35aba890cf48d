-- ===== src/Lounge/Threads/Calls.antt =====
-- What insert and erase of a channel do when nothing is between their steps.
use beast_lounge.Base.{ℕ, ◌≡◌, Bool, true, false}
use beast_lounge.Boost.{Boost}
use beast_lounge.Lounge.{do_insert, do_erase, Channel, Lounge}
use beast_lounge.Lounge.Threads.{Call, inserts, erases, at_rest}
use beast_lounge.Lounge.Threads.Alone.{alone}
use beast_lounge.Lounge.Threads.Changes.{news, Changed, for_table}

module _ ⦃B : Boost⦄ where
  open B use {contains, insert, erase}

  -- That many steps of the thread of `u`, which was at rest, end the call with this answer in this state.
  abbrev pub Runs : ℕ → Call → Lounge → Bool → Lounge → Type 0
  Runs u call s answer s' = (n : ℕ) × (alone n u call (at_rest false, s) ≡ (at_rest answer, s'))

  -- What insert() does, by whether the user is in the channel: all who are in it then are told.
  pub data Inserted (c : Channel) (u : ℕ) (s : Lounge) : Type 0 where
    inside : contains u c.users ≡ true → Runs u (inserts c.cid) s false s → Inserted c u s
    enters :
        (s' : Lounge)
        → contains u c.users ≡ false
        → Runs u (inserts c.cid) s true s'
        → Changed c
            (insert u c.users)
            (insert u c.users)
            u
            true
            (news "join" c (s.users u))
            (for_table c.class (do_insert u))
            s
            s'
        → Inserted c u s

  -- What erase() does: all who were in the channel are told.
  pub data Erased (c : Channel) (u : ℕ) (s : Lounge) : Type 0 where
    outside : contains u c.users ≡ false → Runs u (erases c.cid) s false s → Erased c u s
    exits :
        (s' : Lounge)
        → contains u c.users ≡ true
        → Runs u (erases c.cid) s true s'
        → Changed c
            (erase u c.users)
            c.users
            u
            false
            (news "leave" c (s.users u))
            (for_table c.class (do_erase u))
            s
            s'
        → Erased c u s
