-- ===== src/Notify/Send.antt =====
-- What an entry that is sent does to the queue of each observer.
use everarch.Prelude.{
  ℕ, suc, ◌^◌, ◌<◌, ◌≡◌, ◌≢◌, ◌⊎◌, inl, refl, ap, ◌∙◌, Bool, true, false, Option, none, some, List,
  [], ◌∷◌, ◌++◌, All, length, if◌then◌else◌, ==_iff, ne→==,
}
use everarch.Errors.{Status, ok, temporary_occupied}
use everarch.Queue.{Queue, create_queue}
use everarch.Queue.Refine.{Holds, create_queue-Holds}
use everarch.Notify.{Observer, Notify, notify_register, notify_unregister}

module _ {A : Type 0} (garbage : A) (k : ℕ) where
  -- The queue is a sound ring with the entries `xs`, and it has been full or not.
  pub record IsLive (q : Queue A) : Type 0 where
    pub entries : List A
    pub ring : Holds garbage k entries q
    pub status : (q.status ≡ ok) ⊎ (q.status ≡ temporary_occupied)

  -- What a put does to a queue with the entries `xs`: the entry is behind them, or there was no room
  -- for it, now or before, and the queue is as it was but for its status.
  abbrev pub Filled : A → List A → Queue A → Queue A → Type 0
  Filled e xs q q' =
      ((q.status ≡ ok)
        × (suc (length xs) < 2 ^ k)
        × (q'.status ≡ ok)
        × Holds garbage k (xs ++ (e ∷ [])) q')
      ⊎ (((suc (length xs) ≡ 2 ^ k) ⊎ (q.status ≡ temporary_occupied))
          × (q'.status ≡ temporary_occupied)
          × Holds garbage k xs q')

module _ {A C : Type 0} (garbage : A) (k : ℕ) where
  abbrev pub LiveSlot : Option (Observer A C) → Type 0
  LiveSlot none = Unit {0}
  LiveSlot (some it) = IsLive garbage k it.messages

  abbrev pub AllLive : Notify A C → Type 0
  AllLive its = All LiveSlot its

  module _ (filter : C → A → Bool) (entry : A) where
    -- An observer's slot, before and after.
    abbrev pub Delivered : Option (Observer A C) → Option (Observer A C) → Type 0
    Delivered none after = after ≡ none
    Delivered (some it) after =
        (o : Observer A C) × (after ≡ some o)
        × (o.address ≡ it.address)
        × (o.ctx ≡ it.ctx)
        × (((filter it.ctx entry ≡ false) × (o.messages ≡ it.messages))
            ⊎ ((filter it.ctx entry ≡ true)
                × ((xs : List A) × Holds garbage k xs it.messages
                    × Filled garbage k entry xs it.messages o.messages)))

    abbrev pub AllDelivered : Notify A C → Notify A C → Type 0
    AllDelivered [] after = after ≡ []
    AllDelivered (it ∷ its) after =
        (o : Option (Observer A C)) × (os : Notify A C) × (after ≡ o ∷ os)
        × Delivered it o
        × AllDelivered its os

    -- one observer's part of the call
    abbrev Served : Option (Observer A C) → Bool × Option (Observer A C) → Type 0
    Served it (fine, after) = (fine ≡ true) × Delivered it after × LiveSlot after

  -- No observer has the queue at this address.
  abbrev pub IsFresh : ℕ → Notify A C → Type 0
  IsFresh a [] = Unit {0}
  IsFresh a (none ∷ its) = IsFresh a its
  IsFresh a (some it ∷ its) = (it.address ≢ a) × IsFresh a its

  abbrev pub HasRoom : Notify A C → Type 0
  HasRoom [] = ⊥
  HasRoom (none ∷ its) = Unit {0}
  HasRoom (some it ∷ its) = HasRoom its

  -- Where a slot is free, an observer that registers gets the new queue, which is empty, and all
  -- queues stay sound; when it unregisters that queue the observers are those of before.
  pub notify_unregister-register :
      (a : ℕ) (ctx : C) (its : Notify A C)
      → IsFresh a its
      → HasRoom its
      → AllLive its
      → ((notify_register garbage k (some a) ctx its).0 ≡ some a)
        × AllLive (notify_register garbage k (some a) ctx its).1
        × (notify_unregister a (notify_register garbage k (some a) ctx its).1 ≡ (ok, its))
  unfolding notify_register notify_unregister create_queue
  notify_unregister-register a ctx [] fresh room v = absurd room
  notify_unregister-register a ctx (none ∷ its) fresh room (v, vs) = (
    refl,
    (record { entries = []; ring = create_queue-Holds garbage k; status = inl refl }, vs),
    ap
        (λ b.
          if b
          then (ok, none ∷ its)
          else ((notify_unregister a its).0, some new ∷ (notify_unregister a its).1))
        ((==_iff a a).1 refl),
  )
    where
      new : Observer A C
      new = record { address = a; messages = create_queue garbage k; ctx = ctx }
  notify_unregister-register a ctx (some it ∷ its) (ne, fresh) room (v, vs) =
      let (ret, lives, back) = notify_unregister-register a ctx its fresh room vs in
      (
        ret,
        (v, lives),
        ap
              (λ b.
                if b
                then (ok, none ∷ after)
                else ((notify_unregister a after).0, some it ∷ (notify_unregister a after).1))
              (ne→== it.address a ne)
            ∙ ap (λ (r : Status × Notify A C). (r.0, some it ∷ r.1)) back,
      )
    where
      after : Notify A C
      after = (notify_register garbage k (some a) ctx its).1
