-- ===== src/Driver/Threads/Claims.antt =====
-- Which keys the threads that load have taken and not yet written, in the threads of ycsbc.cc that call
-- `DoInsert` of core/client.h.
use mathlib.Core.Path.{fun_ext}
use mathlib.Core.Option.{some_inj}
use native.Mathlib.Decide.{dec_lt, ℕ_discrete}
use ycsb_lsm.Base.{
  ℕ, zero, suc, ◌+◌, ◌^◌, ◌≤◌, ◌<◌, ◌≡◌, ◌≢◌, ◌⊎◌, inl, inr, refl, sym, ap, ◌∙◌, true, false, List,
  [], ◌∷◌, ◌++◌, Option, none, some, Bytes, same, get_elem?, set, ◌==◌, ==_iff, if◌then◌else◌,
  Bool-cases, arith,
}
use ycsb_lsm.UnorderedMap.{Container}
use ycsb_lsm.Hashtable.{c_str}
use ycsb_lsm.HashtableDb.{KeyHashtable, FieldHashtable}
use ycsb_lsm.HashtableDb.Contract.{record_at}
use ycsb_lsm.Workload.{build_key_name}
use ycsb_lsm.Workload.KeyName.{build_key_name_inj}
use ycsb_lsm.Client.Loading.{IsText}
use ycsb_lsm.Driver.Loads.{index_of, index_of_differ}
use ycsb_lsm.Driver.Threads.{Thread, starting, looping, keyed, built, finished}

-- The key that a thread has taken and not yet written.
abbrev pub held : Thread → Option Bytes
held starting = none
held (looping t_id left i oks) = none
held (keyed t_id left i oks key) = some key
held (built t_id left i oks key pairs) = some key
held (finished oks) = none

abbrev pub held_of : Option Thread → Option Bytes
held_of none = none
held_of (some t) = held t

-- The same, by the place of the thread.
abbrev pub claim_of : List Thread → ℕ → Option Bytes
claim_of threads i = held_of (get_elem? threads i)

abbrev pub put {ℓ} : {A : Type ℓ} → (ℕ → A) → ℕ → A → ℕ → A
put f i a j = if j == i then a else f j

-- What is at a place after a change: the new value at its place, the old one elsewhere.
pub put_cases {ℓ} :
    {A : Type ℓ} (f : ℕ → A) (i j : ℕ) (a x : A)
    → put f i a j ≡ x
    → ((j ≡ i) × (a ≡ x)) ⊎ ((j ≢ i) × (f j ≡ x))
put_cases f i j a x h = elim (Bool-cases (j == i)) [
  | inl e ↦ inl ((==_iff j i).0 e, rw e at h)
  | inr e ↦ inr (λ p. ground (arith, ==_iff j i), rw e at h)
]

pub put_same {ℓ} : {A : Type ℓ} (f : ℕ → A) (i : ℕ) (a : A) → put f i a i ≡ a
put_same f i a = rw ((==_iff i i).1 refl) refl

pub put_other {ℓ} : {A : Type ℓ} (f : ℕ → A) (i j : ℕ) (a : A) → j ≢ i → put f i a j ≡ f j
put_other f i j a h = elim (Bool-cases (j == i)) [
  | inl e ↦ absurd (h ((==_iff j i).0 e))
  | inr e ↦ rw e refl
]

pub get_elem?-set {ℓ} :
    {A : Type ℓ} (xs : List A) (i j : ℕ) (x y : A)
    → get_elem? xs i ≡ some x
    → get_elem? (set xs i y) j ≡ put (get_elem? xs) i (some y) j
get_elem?-set [] i j x y h = cc
get_elem?-set (a ∷ xs) zero zero x y h = ground arith
get_elem?-set (a ∷ xs) zero (suc j) x y h = ground arith
get_elem?-set (a ∷ xs) (suc i) zero x y h = ground arith
get_elem?-set (a ∷ xs) (suc i) (suc j) x y h = get_elem?-set xs i j x y h ∙ ground arith

pub claim_of-set :
    (threads : List Thread) (i : ℕ) (t t' : Thread)
    → get_elem? threads i ≡ some t
    → claim_of (set threads i t') ≡ put (claim_of threads) i (held t')
claim_of-set threads i t t' h = fun_ext λ j.
    ap held_of (get_elem?-set threads i j t t' h)
    ∙ elim (Bool-cases (j == i)) [ inl e ↦ rw e refl | inr e ↦ rw e refl ]

-- A step that takes and writes no key.
pub claim_of-set_same :
    (threads : List Thread) (i : ℕ) (t t' : Thread)
    → get_elem? threads i ≡ some t
    → held t' ≡ held t
    → claim_of (set threads i t') ≡ claim_of threads
claim_of-set_same threads i t t' h same_key =
    claim_of-set threads i t t' h
    ∙ fun_ext λ j. elim (Bool-cases (j == i)) [
      | inl e ↦
          let now : claim_of threads j ≡ held t =
            ap (claim_of threads) ((==_iff j i).0 e) ∙ ap held_of h in
          rw e (same_key ∙ sym now)
      | inr e ↦ rw e refl
    ]

-- There is a record at an index.
abbrev pub IsThere : (C : Container) → KeyHashtable C → Bytes → Type 0
IsThere C db j = (t : FieldHashtable C) × (record_at C db j ≡ some t)

module _ (C : Container) (table : Bytes) (first goal : ℕ) (before : KeyHashtable C) where
  -- A key that was taken: one of the numbers so far, with no record yet.
  pub record IsTaken (next : ℕ) (db : KeyHashtable C) (key : Bytes) : Type 0 where
    pub number : ℕ
    pub from : first ≤ number
    pub below : number < next
    pub named : key ≡ build_key_name true number
    pub absent : record_at C db (table ++ key) ≡ none

  -- The counter stands at `next`. Every number below it was taken by one thread: its record is written, or one
  -- thread holds its key and no record is there. The numbers from it on have no record.
  pub record AreClaimed (claim : ℕ → Option Bytes) (next : ℕ) (db : KeyHashtable C) : Type 0 where
    pub started : first ≤ next
    pub taken : (i : ℕ) (key : Bytes) → claim i ≡ some key → IsTaken next db key
    pub apart : (i j : ℕ) (key : Bytes) → claim i ≡ some key → claim j ≡ some key → i ≡ j
    pub there :
        (k : ℕ)
        → first ≤ k
        → k < next
        → IsThere C db (index_of table k) ⊎ ((i : ℕ) × (claim i ≡ some (build_key_name true k)))
    pub free : (k : ℕ) → next ≤ k → k < first + goal → record_at C db (index_of table k) ≡ none
    pub kept : (j : Bytes) → IsThere C before j → IsThere C db j

  module _ (text : IsText table) (room : first + goal ≤ 2 ^ 64) where
    IsTaken-suc :
        (next : ℕ) (db : KeyHashtable C) (key : Bytes)
        → IsTaken next db key
        → IsTaken (suc next) db key
    IsTaken-suc next db key t = record {
      number = t.number;
      from = t.from;
      below = omega (arith, t.below);
      named = t.named;
      absent = t.absent;
    }

    -- No thread holds the key that is taken next.
    next_is_new :
        (claim : ℕ → Option Bytes) (next : ℕ) (db : KeyHashtable C) (j : ℕ) (key : Bytes)
        → AreClaimed claim next db
        → next < first + goal
        → build_key_name true next ≡ key
        → claim j ≢ some key
    next_is_new claim next db j key a more new h =
        let t = a.taken j key h in
        let number =
          build_key_name_inj next t.number (omega (arith, room)) (omega (arith, room, t.below))
            (new ∙ t.named) in
        omega (arith, t.below, number)

    -- A thread takes the next key.
    pub AreClaimed-take :
        (claim : ℕ → Option Bytes) (next : ℕ) (db : KeyHashtable C) (i : ℕ)
        → AreClaimed claim next db
        → claim i ≡ none
        → next < first + goal
        → AreClaimed (put claim i (some (build_key_name true next))) (suc next) db
    AreClaimed-take claim next db i a idle more =
        let name = build_key_name true next in
        record {
          started = omega (arith, a.started);
          taken = λ j key h. elim (put_cases claim i j (some name) (some key) h) [
            | inl (here, new) ↦ record {
              number = next;
              from = a.started;
              below = omega arith;
              named = sym (some_inj.0 new);
              absent =
                  ap (λ b. record_at C db (table ++ b)) (sym (some_inj.0 new))
                  ∙ a.free next (omega arith) more;
            }
            | inr (other, old) ↦ IsTaken-suc next db key (a.taken j key old)
          ];
          apart = λ j k key h l. elim (put_cases claim i j (some name) (some key) h) [
            | inl (here, new) ↦ elim (put_cases claim i k (some name) (some key) l) [
              | inl (here', _) ↦ here ∙ sym here'
              | inr (_, old) ↦ absurd (next_is_new claim next db k key a more (some_inj.0 new) old)
            ]
            | inr (_, old) ↦ elim (put_cases claim i k (some name) (some key) l) [
              | inl (_, new) ↦ absurd (next_is_new claim next db j key a more (some_inj.0 new) old)
              | inr (_, old') ↦ a.apart j k key old old'
            ]
          ];
          there = λ k p q. elim (dec_lt k next) [
            | yes before_it ↦ elim (a.there k p before_it) [
              | inl written ↦ inl written
              | inr (j, holds) ↦
                  let other : j ≢ i = λ e. let clash = sym holds ∙ ap claim e ∙ idle in cc in
                  inr (j, put_other claim i j (some name) other ∙ holds)
            ]
            | no last ↦
                let it : next ≡ k = omega arith in
                inr (i, put_same claim i (some name) ∙ ap (λ n. some (build_key_name true n)) it)
          ];
          free = λ k p q. a.free k (omega arith) q;
          kept = a.kept;
        }

    -- Different numbers have different indices.
    apart_index :
        (a b : ℕ)
        → a < first + goal
        → b < first + goal
        → a ≢ b
        → same (c_str (index_of table a)) (c_str (index_of table b)) ≡ false
    apart_index a b p q differ =
        index_of_differ table a b text (omega (arith, room)) (omega (arith, room)) differ

    -- A thread writes the record of the key that it holds, and changes no other record.
    pub AreClaimed-write :
        (claim : ℕ → Option Bytes) (next : ℕ) (db db' : KeyHashtable C) (i : ℕ) (key : Bytes)
        (t : FieldHashtable C)
        → AreClaimed claim next db
        → next ≤ first + goal
        → claim i ≡ some key
        → record_at C db' (table ++ key) ≡ some t
        → ((j : Bytes)
            → record_at C db' j
              ≡ (if same (c_str (table ++ key)) (c_str j) then some t else record_at C db j))
        → AreClaimed (put claim i none) next db'
    AreClaimed-write claim next db db' i key t a small mine there frame =
        let own = a.taken i key mine in
        let index : table ++ key ≡ index_of table own.number = ap (λ b. table ++ b) own.named in
        let unchanged : (k : ℕ)
            → k < first + goal
            → k ≢ own.number
            → record_at C db' (index_of table k) ≡ record_at C db (index_of table k) =
          λ k p differ.
            frame (index_of table k)
            ∙ ap (λ b. if b then some t else record_at C db (index_of table k))
                (ap (λ x. same (c_str x) (c_str (index_of table k))) index
                  ∙ apart_index own.number k (omega (arith, own.below)) p (λ e. differ (sym e))) in
        record {
          started = a.started;
          taken = λ j other h. elim (put_cases claim i j none (some other) h) [
            | inl (_, never) ↦ cc
            | inr (elsewhere, old) ↦
                let o = a.taken j other old in
                let differ : o.number ≢ own.number = λ e. elsewhere (
                  a.apart j i key
                    (old ∙ ap some (o.named ∙ ap (build_key_name true) e ∙ sym own.named)) mine) in
                record {
                  number = o.number;
                  from = o.from;
                  below = o.below;
                  named = o.named;
                  absent =
                      let at = ap (λ b. record_at C db' (table ++ b)) o.named in
                      let at' = ap (λ b. record_at C db (table ++ b)) o.named in
                      at ∙ unchanged o.number (omega (arith, o.below)) differ ∙ sym at' ∙ o.absent;
                }
          ];
          apart = λ j k other h l. elim (put_cases claim i j none (some other) h) [
            | inl (_, never) ↦ cc
            | inr (_, old) ↦ elim (put_cases claim i k none (some other) l) [
              | inl (_, never) ↦ cc
              | inr (_, old') ↦ a.apart j k other old old'
            ]
          ];
          there = λ k p q. elim (ℕ_discrete k own.number) [
            | yes e ↦ inl (
              t,
              ap (λ n. record_at C db' (index_of table n)) e
                  ∙ ap (record_at C db') (sym index)
                  ∙ there,
            )
            | no differ ↦ elim (a.there k p q) [
              | inl (u, written) ↦ inl (u, unchanged k (omega arith) differ ∙ written)
              | inr (j, holds) ↦
                  let other : j ≢ i = λ e. differ (
                    build_key_name_inj k own.number (omega (arith, room))
                      (omega (arith, room, own.below))
                      (some_inj.0 (sym holds ∙ ap claim e ∙ mine) ∙ own.named)) in
                  inr (j, put_other claim i j none other ∙ holds)
            ]
          ];
          free = λ k p q. unchanged k q (λ e. omega (arith, e, own.below)) ∙ a.free k p q;
          kept = λ j old.
              let (u, h) = a.kept j old in
              elim (Bool-cases (same (c_str (table ++ key)) (c_str j))) [
                | inl e ↦ (t, frame j ∙ rw e refl)
                | inr e ↦ (u, frame j ∙ rw e h)
              ];
        }
