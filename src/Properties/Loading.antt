-- ===== src/Properties/Loading.antt =====
-- `Load`: which value a key has afterwards, and the round trip with a printed file.
use mathlib.Core.List.{append_assoc}
use mathlib.Core.Option.{or_else}
use ycsb_lsm.Base.{
  ◌≡◌, ◌≢◌, refl, sym, ap, ◌∙◌, Bool, true, false, List, [], ◌∷◌, ◌++◌, Option, none, some, Bytes,
  same, ==_iff, arith, if◌then◌else◌, ok, All,
}
use ycsb_lsm.Utils.{trim}
use ycsb_lsm.Properties.{
  Properties, find, set_property, get_property, lines, split_at_equals, is_comment, load_line,
  load_lines, load,
}
use ycsb_lsm.Properties.Laws.{find-assign}

-- The value that one line gives to a key.
pub line_value : Bytes → Bytes → Option Bytes
line_value key line = if is_comment line then none else elim (split_at_equals line) [
  | none ↦ none
  | some (before, after) ↦ if same (trim before) key then some (trim after) else none
]

-- The value that the last line which names the key gives to it.
pub last_value : Bytes → List Bytes → Option Bytes
last_value key [] = none
last_value key (line ∷ rest) = or_else (last_value key rest) (line_value key line)

find-load_line :
    (p : Properties) (line key : Bytes)
    → find key (load_line p line).properties ≡ or_else (line_value key line) (find key p.properties)
unfolding load_line line_value or_else set_property
find-load_line p line key = go (is_comment line) (split_at_equals line) refl refl
  where
    go :
        (b : Bool) (o : Option (Bytes × Bytes))
        → is_comment line ≡ b
        → split_at_equals line ≡ o
        → find key (load_line p line).properties
          ≡ or_else (line_value key line) (find key p.properties)
    go true o e f = ground arith
    go false none e f = ground arith
    go false (some (before, after)) e f =
        ground (arith, find-assign (trim before) key (trim after) p.properties)

or_else_assoc : (a b c : Option Bytes) → or_else a (or_else b c) ≡ or_else (or_else a b) c
unfolding or_else
or_else_assoc none b c = refl
or_else_assoc (some v) b c = refl

find-load_lines :
    (p : Properties) (ls : List Bytes) (key : Bytes)
    → find key (load_lines p ls).properties ≡ or_else (last_value key ls) (find key p.properties)
unfolding load_lines last_value
find-load_lines p [] key = unfold or_else in refl
find-load_lines p (line ∷ ls) key =
    find-load_lines (load_line p line) ls key
    ∙ ap (or_else (last_value key ls)) (find-load_line p line key)
    ∙ or_else_assoc (last_value key ls) (line_value key line) (find key p.properties)

-- After `Load` of an open file `GetProperty` returns the value of the last line that names the key,
-- and if none does what it returned before.
pub get_property-load :
    (p : Properties) (text key default_value : Bytes)
    → (q : Properties) × (load p (some text) ≡ ok (true, q))
      × (get_property q key default_value ≡ elim (last_value key (lines text)) [
        | none ↦ get_property p key default_value
        | some v ↦ v
      ])
unfolding load get_property or_else
get_property-load p text key d =
    (load_lines p (lines text), refl, ground (arith, find-load_lines p (lines text) key))

-- A line `key=value` for each pair.
pub print : List (Bytes × Bytes) → Bytes
print [] = []
print ((k, v) ∷ rest) = k ++ b'=' ∷ (v ++ b'\n' ∷ print rest)

-- A pair that a line can carry.
pub record IsPlain (e : Bytes × Bytes) : Type 0 where
  pub key_line : All (λ c. c ≢ b'\n') e.0
  pub key_equals : All (λ c. c ≢ b'=') e.0
  pub key_comment : is_comment e.0 ≡ false
  pub key_trimmed : trim e.0 ≡ e.0
  pub value_line : All (λ c. c ≢ b'\n') e.1
  pub value_trimmed : trim e.1 ≡ e.1

abbrev pub set_all : Properties → List (Bytes × Bytes) → Properties
set_all p [] = p
set_all p ((k, v) ∷ rest) = set_all (set_property p k v) rest

lines-append : (s t : Bytes) → All (λ c. c ≢ b'\n') s → lines (s ++ b'\n' ∷ t) ≡ s ∷ lines t
unfolding lines
lines-append [] t h = refl
lines-append (c ∷ s) t h = ground (arith, lines-append s t h.1, h.0, ==_iff c b'\n')

split_at_equals-append :
    (k v : Bytes) → All (λ c. c ≢ b'=') k → split_at_equals (k ++ b'=' ∷ v) ≡ some (k, v)
unfolding split_at_equals
split_at_equals-append [] v h = refl
split_at_equals-append (c ∷ k) v h =
    ground (arith, split_at_equals-append k v h.1, h.0, ==_iff c b'=')

is_comment-append : (k v : Bytes) → is_comment k ≡ false → is_comment (k ++ b'=' ∷ v) ≡ false
unfolding is_comment
is_comment-append [] v h = refl
is_comment-append (c ∷ k) v h = h

line_line :
    (k v : Bytes)
    → All (λ c. c ≢ b'\n') k
    → All (λ c. c ≢ b'\n') v
    → All (λ c. c ≢ b'\n') (k ++ b'=' ∷ v)
line_line [] v hk hv = (omega arith, hv)
line_line (c ∷ k) v hk hv = (hk.0, line_line k v hk.1 hv)

load_line-print :
    (p : Properties) (k v : Bytes)
    → IsPlain (k, v)
    → load_line p (k ++ b'=' ∷ v) ≡ set_property p k v
unfolding load_line
load_line-print p k v h = rw (
  is_comment-append k v h.key_comment,
  split_at_equals-append k v h.key_equals,
  h.key_trimmed,
  h.value_trimmed,
)

load_lines-print :
    (p : Properties) (es : List (Bytes × Bytes))
    → All IsPlain es
    → load_lines p (lines (print es)) ≡ set_all p es
unfolding print load_lines
load_lines-print p [] h = unfold lines load_line is_comment split_at_equals in refl
load_lines-print p ((k, v) ∷ es) h =
    rw
      (
        sym (append_assoc k (b'=' ∷ v) (b'\n' ∷ print es)),
        lines-append (k ++ b'=' ∷ v) (print es) (line_line k v h.0.key_line h.0.value_line),
      )
      (rw (load_lines, load_line-print p k v h.0) (load_lines-print (set_property p k v) es h.1))

-- Loading a printed list of plain pairs sets them in their order.
pub load-print :
    (p : Properties) (es : List (Bytes × Bytes))
    → All IsPlain es
    → load p (some (print es)) ≡ ok (true, set_all p es)
unfolding load
load-print p es h = rw (load_lines-print p es h)
