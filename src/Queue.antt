-- ===== src/Queue.antt =====
-- The queue between threads of src/queue.c, a ring buffer of `1 << items_len_exp` entries. Each call
-- holds the lock from its first to its last line, except that `evr_queue_take` lets it go while it
-- waits: the entries that are put meanwhile are an argument of it.
pub mod Ring
pub mod Slots
pub mod Refine
pub mod Take
mod Tests
use everarch.Prelude.{
  ℕ, zero, suc, ◌+◌, ◌-◌, ◌^◌, Bool, true, false, Option, none, some, List, [], ◌∷◌, if◌then◌else◌,
  ◌==◌, replicate, set, get_or,
}
use Prim.Native.Nat.{bit_and}
use everarch.Errors.{Status, ok, error, temporary_occupied, not_found}

pub record Queue {ℓ} (A : Type ℓ) : Type ℓ where
  pub status : Status
  pub writing_i : ℕ
  pub reading_i : ℕ
  pub items_len : ℕ
  pub items_buf : List A

-- `(i + 1) & (items_len - 1)`
abbrev pub next_i : ℕ → ℕ → ℕ
next_i items_len i = bit_and (i + 1) (items_len - 1)

module _ {ℓ} {A : Type ℓ} where
  -- `evr_create_queue`; `garbage` is what malloc leaves in the items.
  unfoldable pub create_queue : A → ℕ → Queue A
  create_queue garbage items_len_exp = record {
    status = ok;
    writing_i = 0;
    reading_i = 0;
    items_len = 2 ^ items_len_exp;
    items_buf = replicate (2 ^ items_len_exp) garbage;
  }

  -- the part of `evr_queue_put` behind the tests of the status
  abbrev pub put_next : Queue A → A → Bool → Status × Queue A
  put_next q entry true = (temporary_occupied, record q { status = temporary_occupied })
  put_next q entry false = (
    ok,
    record q {
      items_buf = set q.items_buf q.writing_i entry;
      writing_i = next_i q.items_len q.writing_i;
    },
  )

  abbrev pub put_status : Queue A → A → Status → Status × Queue A
  put_status q entry temporary_occupied = (temporary_occupied, q)
  put_status q entry ok = put_next q entry (next_i q.items_len q.writing_i == q.reading_i)
  put_status q entry _ = (error, q)

  unfoldable pub queue_put : Queue A → A → Status × Queue A
  queue_put q entry = put_status q entry q.status

  -- several calls of `evr_queue_put`, one after the other
  unfoldable pub put_all : Queue A → List A → Queue A
  unfolding queue_put
  put_all q [] = q
  put_all q (e ∷ es) = put_all (queue_put q e).1 es

  -- the copy of the entry that is next
  abbrev pub take_entry : A → Queue A → Option A × Status × Queue A
  take_entry garbage q = (
    some (get_or q.items_buf q.reading_i garbage),
    ok,
    record q { reading_i = next_i q.items_len q.reading_i },
  )

  abbrev pub take_or_none : A → Queue A → Bool → Option A × Status × Queue A
  take_or_none garbage q true = (none, not_found, q)
  take_or_none garbage q false = take_entry garbage q

  abbrev pub take_wait : A → List A → Queue A → Bool → Option A × Status × Queue A
  unfolding put_all
  take_wait garbage meanwhile q true =
      let r = put_all q meanwhile in take_or_none garbage r (r.writing_i == r.reading_i)
  take_wait garbage meanwhile q false = take_entry garbage q

  abbrev pub take_status : A → List A → Queue A → Status → Option A × Status × Queue A
  unfolding take_wait
  take_status garbage meanwhile q ok = take_wait garbage meanwhile q (q.writing_i == q.reading_i)
  take_status garbage meanwhile q _ = (none, error, q)

  -- `evr_queue_take`, with the entry that it copies out
  unfoldable pub queue_take : A → List A → Queue A → Option A × Status × Queue A
  unfolding take_status
  queue_take garbage meanwhile q = take_status garbage meanwhile q q.status

  -- `evr_free_queue` hands out the status.
  unfoldable pub free_queue : Queue A → Status
  free_queue q = q.status
