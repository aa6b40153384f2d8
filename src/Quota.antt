-- ===== src/Quota.antt =====
-- internal/ufs/fs_quota.go: the disk quota of a server. `limit` and `usage` are int64 atomics; exact
-- results that Go computes in int64 are wrapped by `wrap64`.
pub mod Bounds
pub mod Contention
mod Examples
use feathers.Prelude.{
  ℕ, Bool, true, false, not, ◌&&◌, ◌||◌, Option, none, some, List, [], ◌∷◌, if◌then◌else◌,
}
use feathers.Prelude.Int.{
  ℤ, pos, negsuc, ◌+ℤ◌, ◌-ℤ◌, ltb_ℤ, leb_ℤ, eqb_ℤ, neg_ℤ, max_int64, min_int64, wrap64,
}

pub record Quota : Type 0 where
  pub limit : ℤ
  pub usage : ℤ

-- `NewQuota`: the limit is stored, and the usage is the zero value.
unfoldable pub new_quota : ℤ → Quota
new_quota limit = record { limit = limit; usage = pos 0 }

-- `Swap`: the new state and the old value.
unfoldable pub set_limit : ℤ → Quota → Quota × ℤ
set_limit new_limit q = (record q { limit = new_limit }, q.limit)

unfoldable pub set_usage : ℤ → Quota → Quota × ℤ
set_usage new_usage q = (record q { usage = new_usage }, q.usage)

-- The `switch` of `Add`: what it stores for a usage that it has read.
unfoldable pub next_usage : ℤ → ℤ → ℤ
unfolding wrap64 ◌+ℤ◌ ◌-ℤ◌
next_usage usage i =
    if ltb_ℤ (pos 0) i
    then (if ltb_ℤ (wrap64 (max_int64 -ℤ i)) usage then max_int64 else wrap64 (usage +ℤ i))
    else if ltb_ℤ i (pos 0)
    then (if eqb_ℤ i min_int64
        then pos 0
        else if leb_ℤ usage (wrap64 (neg_ℤ i))
        then pos 0
        else wrap64 (usage +ℤ i))
    else usage

-- `Add` with no other goroutine at the quota: the new state and the result.
unfoldable pub add : ℤ → Quota → Quota × ℤ
unfolding next_usage
add i q = let next = next_usage q.usage i in (record q { usage = next }, next)

-- The compare-and-swap loop of `Add`. Each entry of the list is the usage that other goroutines have
-- left when a round compares; the result is the usage that the loop stores. A change of 0 returns
-- what it read.
unfoldable pub add_loop : List ℤ → ℤ → ℤ → ℤ
unfolding next_usage
add_loop [] usage i = next_usage usage i
add_loop (u ∷ us) usage i =
    let again = add_loop us u i in
    if eqb_ℤ i (pos 0) then usage else if eqb_ℤ u usage then next_usage usage i else again

unfoldable pub can_fit : ℤ → Quota → Bool
unfolding wrap64 ◌-ℤ◌
can_fit size q =
    if eqb_ℤ q.limit (negsuc 0)
    then false
    else if eqb_ℤ q.limit (pos 0)
    then true
    else if eqb_ℤ q.usage (negsuc 0)
    then true
    else if leb_ℤ size (pos 0)
    then true
    else if leb_ℤ q.limit q.usage
    then false
    else leb_ℤ size (wrap64 (q.limit -ℤ q.usage))

-- What the file system below reports of a file: its size, and whether it is a regular file.
pub record FileInfo : Type 0 where
  pub regular : Bool
  pub size : ℤ

-- `Remove`, over the result of `RemoveStat`; true stands for a nil error.
unfoldable pub remove : Option FileInfo → Quota → Quota × Bool
unfolding add wrap64
remove none q = (q, false)
remove (some s) q = if not s.regular then (q, true) else ((add (wrap64 (neg_ℤ s.size)) q).0, true)

-- `unlinkat`: the usage falls by the size that `Lstatat` gave, before the file is unlinked; `unlinked`
-- is the result of the unlinking below.
unfoldable pub unlinkat : Bool → Option FileInfo → Bool → Quota → Quota × Bool
unfolding add wrap64
unlinkat flags_zero none unlinked q = (q, unlinked)
unlinkat flags_zero (some s) unlinked q =
    if flags_zero && s.regular then ((add (wrap64 (neg_ℤ s.size)) q).0, unlinked) else (q, unlinked)
