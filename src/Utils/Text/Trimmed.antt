-- ===== src/Utils/Text/Trimmed.antt =====
-- What `Trim` keeps and what it removes.
use mathlib.Core.Path.{subst}
use mathlib.Core.List.{reverse, reverse-append, reverse-reverse, append_assoc}
use ycsb_lsm.Base.{
  ◌≡◌, refl, sym, ap, ◌∙◌, true, false, [], ◌∷◌, ◌++◌, inl, inr, Bytes, Bool-cases, All, All-append,
}
use ycsb_lsm.Utils.Text.{isspace, find_if_not, trim}

abbrev pub AllSpace : Bytes → Type 0
AllSpace s = All (λ c. isspace c ≡ true) s

-- The text does not begin with a space.
abbrev pub NoLead : Bytes → Type 0
NoLead [] = Unit
NoLead (c ∷ s) = isspace c ≡ false

AllSpace-reverse : (s : Bytes) → AllSpace s → AllSpace (reverse s)
AllSpace-reverse [] h = h
AllSpace-reverse (c ∷ s) h =
    rw (reverse-append (c ∷ []) s)
      (All-append (λ c. isspace c ≡ true) (reverse s) (c ∷ []) (AllSpace-reverse s h.1) (h.0, tt))

find_if_not-NoLead : (s : Bytes) → NoLead (find_if_not s)
unfolding find_if_not
find_if_not-NoLead [] = tt
find_if_not-NoLead (c ∷ s) = elim (Bool-cases (isspace c)) [
  | inl e ↦ rw e (find_if_not-NoLead s)
  | inr e ↦ rw e e
]

find_if_not_split : (s : Bytes) → (pre : Bytes) × (s ≡ pre ++ find_if_not s) × AllSpace pre
unfolding find_if_not
find_if_not_split [] = ([], refl, tt)
find_if_not_split (c ∷ s) = elim (Bool-cases (isspace c)) [
  | inl e ↦
      let (pre, split, spaces) = find_if_not_split s in
      (c ∷ pre, rw e (ap (λ t. c ∷ t) split), (e, spaces))
  | inr e ↦ ([], rw e refl, tt)
]

find_if_not_id : (s : Bytes) → NoLead s → find_if_not s ≡ s
unfolding find_if_not
find_if_not_id [] h = refl
find_if_not_id (c ∷ s) h = rw h

NoLead-append : (s t : Bytes) → NoLead (s ++ t) → NoLead s
NoLead-append [] t h = tt
NoLead-append (c ∷ s) t h = h

-- What `trim` cuts off on the left and on the right.
pub record Trimming (s t : Bytes) : Type 0 where
  pub pre : Bytes
  pub post : Bytes
  pub split : s ≡ pre ++ t ++ post
  pub pre_spaces : AllSpace pre
  pub post_spaces : AllSpace post
  pub no_lead : NoLead t
  pub no_trail : NoLead (reverse t)

-- `Trim` cuts off spaces only, on both sides, and what it returns neither begins nor ends with one.
pub trim-Trimming : (s : Bytes) → Trimming s (trim s)
unfolding trim
trim-Trimming s =
    let front = find_if_not s in
    let (pre, split, spaces) = find_if_not_split s in
    let (q, back, trail) = find_if_not_split (reverse front) in
    let f = find_if_not (reverse front) in
    let whole : front ≡ reverse f ++ reverse q =
      sym (reverse-reverse front) ∙ ap reverse back ∙ reverse-append q f in
    record {
      pre = pre;
      post = reverse q;
      split = split ∙ ap (λ t. pre ++ t) whole ∙ sym (append_assoc pre (reverse f) (reverse q));
      pre_spaces = spaces;
      post_spaces = AllSpace-reverse q trail;
      no_lead = NoLead-append (reverse f) (reverse q) (subst NoLead whole (find_if_not-NoLead s));
      no_trail = rw reverse-reverse (find_if_not-NoLead (reverse front));
    }

-- Trimming twice is trimming once.
pub trim_idem : (s : Bytes) → trim (trim s) ≡ trim s
trim_idem s =
    let t = trim-Trimming s in
    unfold trim in
    (ap (λ u. reverse (find_if_not (reverse u))) (find_if_not_id (trim s) t.no_lead)
      ∙ ap reverse (find_if_not_id (reverse (trim s)) t.no_trail)
      ∙ reverse-reverse (trim s))
