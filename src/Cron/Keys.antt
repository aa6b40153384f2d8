-- ===== src/Cron/Keys.antt =====
-- The keys of the map of the SFTP cron job, and the map as a list.
use feathers.Prelude.{
  ℕ, suc, ◌+◌, ◌≤◌, ◌≡◌, refl, ap, sym, ◌∙◌, Bool, true, false, ◌&&◌, Option, some, inl, inr, List,
  [], ◌∷◌, length, arith, ◌==◌, Bool-cases, if◌then◌else◌,
}
use feathers.Prelude.Text.{Text, text_eq, text_eq_refl, text_eq_sound}
use feathers.Cron.{MapKey, key_eq, Group, lookup, put}

pub key_eq_refl : (k : MapKey) → key_eq k k ≡ true
unfolding key_eq
key_eq_refl k =
    rw (text_eq_refl k.user, text_eq_refl k.server, text_eq_refl k.ip, text_eq_refl k.event)
      (ground arith)

abbrev key : Text → Text → Text → Text → ℕ → MapKey
key u s i e t = record { user = u; server = s; ip = i; event = e; minute = t }

and_both : (a b : Bool) → a && b ≡ true → (a ≡ true) × (b ≡ true)
and_both true b h = (refl, h)
and_both false b h = absurd (cc)

pub key_eq_sound : (a b : MapKey) → key_eq a b ≡ true → a ≡ b
unfolding key_eq
key_eq_sound a b h =
    let (hu, h1) =
      and_both (text_eq a.user b.user)
        (text_eq a.server b.server
          && (text_eq a.ip b.ip && (text_eq a.event b.event && a.minute == b.minute)))
        h in
    let (hs, h2) =
      and_both (text_eq a.server b.server)
        (text_eq a.ip b.ip && (text_eq a.event b.event && a.minute == b.minute)) h1 in
    let (hi, h3) =
      and_both (text_eq a.ip b.ip) (text_eq a.event b.event && a.minute == b.minute) h2 in
    let (he, hm) = and_both (text_eq a.event b.event) (a.minute == b.minute) h3 in
    let u : a.user ≡ b.user = text_eq_sound a.user b.user hu in
    let v : a.server ≡ b.server = text_eq_sound a.server b.server hs in
    let i : a.ip ≡ b.ip = text_eq_sound a.ip b.ip hi in
    let e : a.event ≡ b.event = text_eq_sound a.event b.event he in
    let m : a.minute ≡ b.minute = ground (arith, hm) in λ t. key (u t) (v t) (i t) (e t) (m t)

key_ne : (i j k : MapKey) → key_eq i k ≡ true → key_eq i j ≡ false → key_eq j k ≡ false
key_ne i j k here other = elim (Bool-cases (key_eq j k)) [
  | inl same ↦
      let to_j : i ≡ j = key_eq_sound i k here ∙ sym (key_eq_sound j k same) in
      let no : true ≡ false = sym (key_eq_refl j) ∙ ap (λ x. key_eq x j) (sym to_j) ∙ other in
      absurd (ground (arith, no))
  | inr differs ↦ differs
]

pub lookup-put :
    (k j : MapKey) (g : Group) (m : List (MapKey × Group))
    → lookup k (put j g m) ≡ (if key_eq j k then some g else lookup k m)
unfolding lookup put
lookup-put k j g [] = refl
lookup-put k j g ((i, h) ∷ rest) = elim (Bool-cases (key_eq i j)) [
  | inl same ↦
      let is : i ≡ j = key_eq_sound i j same in
      rw (same, is) (either (key_eq j k) (some g) (lookup k rest) (some h))
  | inr other ↦ elim (Bool-cases (key_eq i k)) [
    | inl here ↦ rw (other, key_ne i j k here other, here) refl
    | inr there ↦ rw (other, there) (lookup-put k j g rest)
  ]
]
  where
    either :
        (b : Bool) (x y z : Option Group)
        → (if b then x else y) ≡ (if b then x else if b then z else y)
    either true x y z = refl
    either false x y z = refl

pub length-put :
    (j : MapKey) (g : Group) (m : List (MapKey × Group)) (h : Group)
    → lookup j m ≡ some h
    → length (put j g m) ≡ length m
unfolding lookup put
length-put j g [] h e = absurd (cc)
length-put j g ((i, x) ∷ rest) h e = elim (Bool-cases (key_eq i j)) [
  | inl same ↦ rw same refl
  | inr other ↦ rw other (ap suc (length-put j g rest h (rw other at e)))
]

pub put_new :
    (j : MapKey) (g : Group) (m : List (MapKey × Group)) → length (put j g m) ≤ length m + 1
unfolding put
put_new j g [] = omega arith
put_new j g ((i, x) ∷ rest) = elim (Bool-cases (key_eq i j)) [
  | inl same ↦ rw same (omega arith)
  | inr other ↦ rw other (omega (arith, put_new j g rest))
]
