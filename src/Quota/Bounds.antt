-- ===== src/Quota/Bounds.antt =====
-- `Add` and `CanFit` of internal/ufs/fs_quota.go against exact arithmetic.
use feathers.Prelude.{
  zero, suc, ap, ◌∙◌, ◌≡◌, ◌≢◌, ◌↔◌, ◌⊎◌, inl, refl, Bool, true, arith, if◌then◌else◌, some,
}
use feathers.Prelude.Int.{
  ℤ, pos, negsuc, ◌+ℤ◌, ◌-ℤ◌, ◌≤ℤ◌, ltb_ℤ, max_int64, IsInt64, wrap64, wrap64_id, neg_ℤ,
}
use feathers.Quota.{Quota, next_usage, add, can_fit, FileInfo, remove, unlinkat}

-- The usage is known and is an int64.
abbrev pub IsKnown : ℤ → Type 0
IsKnown u = (pos 0 ≤ℤ u) × (u ≤ℤ max_int64)

-- A number brought into the range from 0 to the largest int64.
abbrev pub clamp : ℤ → ℤ
clamp z = if ltb_ℤ z (pos 0) then pos 0 else if ltb_ℤ max_int64 z then max_int64 else z

-- On a known usage `Add` is the exact sum, brought into the range of a known usage: no int64 step
-- of it wraps.
pub next_usage-clamp : (u i : ℤ) → IsKnown u → IsInt64 i → next_usage u i ≡ clamp (u +ℤ i)
unfolding next_usage
next_usage-clamp (pos u) (pos i) k h = ground arith
next_usage-clamp (pos u) (negsuc i) k h = ground arith
next_usage-clamp (negsuc u) i k h = absurd (omega arith)

-- A known usage stays known, whatever is added.
pub add-IsKnown : (i : ℤ) (q : Quota) → IsKnown q.usage → IsInt64 i → IsKnown (add i q).0.usage
unfolding add
add-IsKnown i q k h = rw (next_usage-clamp q.usage i k h) (ground arith)

-- What `CanFit` promises, in exact arithmetic.
abbrev pub HasRoom : ℤ → Quota → Type 0
HasRoom size q =
    (q.limit ≡ pos 0)
    ⊎ ((q.limit ≢ negsuc 0)
        × ((q.usage ≡ negsuc 0) ⊎ (size ≤ℤ pos 0) ⊎ (q.usage +ℤ size ≤ℤ q.limit)))

can_fit_cases :
    (size limit usage : ℤ)
    → (IsKnown usage ⊎ (usage ≡ negsuc 0))
    → IsInt64 limit
    → IsInt64 size
    → can_fit size (record { limit = limit; usage = usage }) ≡ true
      ↔ HasRoom size (record { limit = limit; usage = usage })
unfolding can_fit ◌+ℤ◌
can_fit_cases size (pos zero) usage k l s = (λ _. inl refl, λ _. refl)
can_fit_cases size (negsuc zero) usage k l s = ground arith
can_fit_cases (pos n) (pos (suc m)) (pos u) k l s = ground arith
can_fit_cases (negsuc n) (pos (suc m)) (pos u) k l s = ground arith
can_fit_cases (pos n) (negsuc (suc m)) (pos u) k l s = ground arith
can_fit_cases (negsuc n) (negsuc (suc m)) (pos u) k l s = ground arith
can_fit_cases size (pos (suc m)) (negsuc zero) k l s = ground arith
can_fit_cases size (negsuc (suc m)) (negsuc zero) k l s = ground arith
can_fit_cases size (pos (suc m)) (negsuc (suc u)) k l s = absurd (ground arith)
can_fit_cases size (negsuc (suc m)) (negsuc (suc u)) k l s = absurd (ground arith)

-- `CanFit` says yes exactly when the quota is unlimited, or it is not -1 and the usage is not known
-- yet, the size is not positive, or usage and size together are within the limit.
pub can_fit-HasRoom :
    (size : ℤ) (q : Quota)
    → (IsKnown q.usage ⊎ (q.usage ≡ negsuc 0))
    → IsInt64 q.limit
    → IsInt64 size
    → can_fit size q ≡ true ↔ HasRoom size q
can_fit-HasRoom size q k l s = can_fit_cases size q.limit q.usage k l s

neg-IsInt64 : (z : ℤ) → IsKnown z → IsInt64 (neg_ℤ z)
neg-IsInt64 (pos n) k = ground arith
neg-IsInt64 (negsuc n) k = absurd (omega arith)

+ℤ-neg : (u z : ℤ) → u +ℤ neg_ℤ z ≡ u -ℤ z
unfolding ◌+ℤ◌ ◌-ℤ◌
+ℤ-neg u z = ground arith

add_neg : (u z : ℤ) → IsKnown u → IsKnown z → next_usage u (wrap64 (neg_ℤ z)) ≡ clamp (u -ℤ z)
add_neg u z k h =
    rw (wrap64_id (neg_ℤ z) (neg-IsInt64 z h))
      (next_usage-clamp u (neg_ℤ z) k (neg-IsInt64 z h) ∙ ap clamp (+ℤ-neg u z))

-- Deleting a regular file lowers a known usage by its size, down to 0; deleting anything else leaves
-- the usage alone. `Remove` does so after a successful removal, `unlinkat` before the unlinking.
pub delete_usage :
    (s : FileInfo) (unlinked : Bool) (q : Quota)
    → IsKnown q.usage
    → IsKnown s.size
    → let after = if s.regular then clamp (q.usage -ℤ s.size) else q.usage in
      (remove (some s) q ≡ (record q { usage = after }, true))
      × (unlinkat true (some s) unlinked q ≡ (record q { usage = after }, unlinked))
unfolding remove unlinkat
delete_usage s unlinked q k h = ground (arith, add_neg q.usage s.size k h)
