-- ===== src/BsearchIter/Loop.antt =====
-- The loop of a client, and one round of it.
use c_embedded_utils.Common.{
  ℕ, zero, suc, ◌<◌, ◌≡◌, ◌⊎◌, inl, inr, refl, Option, none, some, arith, ◌>>=◌,
}
use c_embedded_utils.Common.Int.{ℤ, pos}
use c_embedded_utils.BsearchIter.{
  BsearchIterator, bsearch_continue, BsearchNotification, notify_left, notify_right, notify_eq,
  notify_err_skip, notify_err_abort, get_check_index, notify, give_up, status,
}
use c_embedded_utils.BsearchIter.Next.{at, checked, IsSearching, get_check_index_lem}
use c_embedded_utils.BsearchIter.Search.{found}

-- The loop of a client that answers for each index by `probe`, with fuel.
unfoldable pub search : (ℤ → BsearchNotification) → ℕ → BsearchIterator → Option BsearchIterator
search probe zero iter = none
search probe (suc fuel) iter = elim (status iter) [
  | bsearch_continue ↦ do
    index ← get_check_index iter
    iter' ← notify iter (probe index)
    search probe fuel iter'
  | _ ↦ some iter
]

pub notification_cases :
    (n : BsearchNotification)
    → (n ≡ notify_left)
      ⊎ (n ≡ notify_right)
      ⊎ (n ≡ notify_eq)
      ⊎ (n ≡ notify_err_skip)
      ⊎ (n ≡ notify_err_abort)
notification_cases notify_left = inl refl
notification_cases notify_right = inr (inl refl)
notification_cases notify_eq = inr (inr (inl refl))
notification_cases notify_err_skip = inr (inr (inr (inl refl)))
notification_cases notify_err_abort = inr (inr (inr (inr refl)))

pub search_step :
    (probe : ℤ → BsearchNotification) (fuel l r : ℕ) (o : ℤ)
    → IsSearching l r o
    → search probe (suc fuel) (at l r o)
      ≡ (notify (at l r o) (probe (pos (checked l r o))) >>= search probe fuel)
unfolding search
search_step probe fuel l r o v = rw (get_check_index_lem l r o v) refl

pub search-give_up :
    (probe : ℤ → BsearchNotification) (fuel : ℕ) (iter : BsearchIterator)
    → 0 < fuel
    → search probe fuel (give_up iter) ≡ some (give_up iter)
unfolding search
search-give_up probe zero iter h = absurd (omega arith)
search-give_up probe (suc fuel) iter h = refl

pub search-found :
    (probe : ℤ → BsearchNotification) (fuel : ℕ) (iter : BsearchIterator)
    → 0 < fuel
    → search probe fuel (found iter) ≡ some (found iter)
unfolding search
search-found probe zero iter h = absurd (omega arith)
search-found probe (suc fuel) iter h = refl
