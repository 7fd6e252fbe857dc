-- ===== src/Session/Lookup.antt =====
-- Finding, updating and removing channels in the list that the session keeps.
use flatline.Common.{◌≡◌, refl, ap, arith, Bool, true, Bool-cases, inl, inr}
use flatline.Common.{List, [], ◌∷◌, some, All}
use mathlib.Core.Path.{subst}
use flatline.Session.{ChannelHandle, find, update, remove}

pub find-test :
    (p : ChannelHandle → Bool) (cs : List ChannelHandle) {c : ChannelHandle}
    → find p cs ≡ some c
    → p c ≡ true
unfolding find
find-test p [] e = cc
find-test p (d ∷ cs) e = elim (Bool-cases (p d)) [
  | inl hit ↦ ground (arith, e, hit)
  | inr miss ↦ find-test p cs (rw miss at e)
]

pub find-update :
    (p : ChannelHandle → Bool) (cs : List ChannelHandle) {c : ChannelHandle} (c' : ChannelHandle)
    → find p cs ≡ some c
    → p c' ≡ true
    → find p (update p (λ _. c') cs) ≡ some c'
unfolding find update
find-update p [] c' e t = cc
find-update p (d ∷ cs) c' e t = elim (Bool-cases (p d)) [
  | inl hit ↦ rw (hit, t)
  | inr miss ↦ rw (miss, miss) (find-update p cs c' (rw miss at e) t)
]

pub update-update :
    (p : ChannelHandle → Bool) (cs : List ChannelHandle) (c' c'' : ChannelHandle)
    → p c' ≡ true
    → update p (λ _. c'') (update p (λ _. c') cs) ≡ update p (λ _. c'') cs
unfolding update
update-update p [] c' c'' t = refl
update-update p (d ∷ cs) c' c'' t = elim (Bool-cases (p d)) [
  | inl hit ↦ rw (hit, t)
  | inr miss ↦ rw (miss, miss) (ap (◌∷◌ d) (update-update p cs c' c'' t))
]

-- What holds of all channels and of the new one holds after an update.
pub update-All {κ} :
    (P : ChannelHandle → Type κ) (p : ChannelHandle → Bool) (c' : ChannelHandle)
    (cs : List ChannelHandle)
    → P c'
    → All P cs
    → All P (update p (λ _. c') cs)
unfolding update
update-All P p c' [] h hs = tt
update-All P p c' (d ∷ cs) h hs = elim (Bool-cases (p d)) [
  | inl hit ↦ rw hit (h, hs.1)
  | inr miss ↦ rw miss (hs.0, update-All P p c' cs h hs.1)
]

pub remove-All {κ} :
    (P : ChannelHandle → Type κ) (p : ChannelHandle → Bool) (cs : List ChannelHandle)
    → All P cs
    → All P (remove p cs)
unfolding remove
remove-All P p [] hs = tt
remove-All P p (d ∷ cs) hs = elim (Bool-cases (p d)) [
  | inl hit ↦ rw hit hs.1
  | inr miss ↦ rw miss (hs.0, remove-All P p cs hs.1)
]

pub find-All {κ} :
    (P : ChannelHandle → Type κ) (p : ChannelHandle → Bool) (cs : List ChannelHandle)
    {c : ChannelHandle}
    → find p cs ≡ some c
    → All P cs
    → P c
unfolding find
find-All P p [] e hs = absurd (cc)
find-All P p (d ∷ cs) e hs = elim (Bool-cases (p d)) [
  | inl hit ↦ let same = rw hit at e in subst P (cc) hs.0
  | inr miss ↦ find-All P p cs (rw miss at e) hs.1
]

-- An update does not move a channel, so removing finds it again.
pub remove-update :
    (p : ChannelHandle → Bool) (cs : List ChannelHandle) (c' : ChannelHandle)
    → p c' ≡ true
    → remove p (update p (λ _. c') cs) ≡ remove p cs
unfolding remove update
remove-update p [] c' t = refl
remove-update p (d ∷ cs) c' t = elim (Bool-cases (p d)) [
  | inl hit ↦ rw (hit, t)
  | inr miss ↦ rw (miss, miss) (ap (◌∷◌ d) (remove-update p cs c' t))
]
