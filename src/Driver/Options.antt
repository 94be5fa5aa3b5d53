-- ===== src/Driver/Options.antt =====
-- `ParseCommandLine` of ycsbc.cc on the options that set properties.
use mathlib.Core.Path.{subst}
use ycsb_lsm.Base.{
  ◌≡◌, refl, true, false, List, [], ◌∷◌, Option, some, Bytes, codes, same, same-eq, ok, Bool-cases,
  inl, inr, All,
}
use ycsb_lsm.Properties.{Properties, set_property}
use ycsb_lsm.Properties.Loading.{set_all}
use ycsb_lsm.UnorderedMap.{lookup}
use ycsb_lsm.Driver.{options, starts_with_dash, take_option, take_options, parse_command_line}

-- An option with its property and a value for it.
pub record Setting : Type 0 where
  pub option : Bytes
  pub key : Bytes
  pub value : Bytes
  pub known : lookup option options ≡ some key

-- The arguments that give the settings.
unfoldable pub arguments : List Setting → List Bytes
arguments [] = []
arguments (s ∷ rest) = s.option ∷ s.value ∷ arguments rest

-- The properties that the settings name, with their values.
abbrev pub settings_of : List Setting → List (Bytes × Bytes)
settings_of [] = []
settings_of (s ∷ rest) = (s.key, s.value) ∷ settings_of rest

abbrev IsOption : Bytes → Type 0
IsOption o = (starts_with_dash o ≡ true) × (same o (codes "-P") ≡ false)

lookup-IsOption :
    (o k : Bytes) (table : List (Bytes × Bytes))
    → All (λ (e : Bytes × Bytes). IsOption e.0) table
    → lookup o table ≡ some k
    → IsOption o
unfolding lookup
lookup-IsOption o k [] a h = cc
lookup-IsOption o k ((name, key) ∷ rest) (a, more) h = elim (Bool-cases (same name o)) [
  | inl e ↦ subst IsOption (same-eq name o e) a
  | inr e ↦ lookup-IsOption o k rest more (rw (lookup, e) at h)
]

options-IsOption : All (λ (e : Bytes × Bytes). IsOption e.0) options
unfolding starts_with_dash same
options-IsOption = (
  (refl, refl),
  (
    (refl, refl),
    (
      (refl, refl),
      (
        (refl, refl),
        (
          (refl, refl),
          (
            (refl, refl),
            ((refl, refl), ((refl, refl), ((refl, refl), ((refl, refl), ((refl, refl), tt))))),
          ),
        ),
      ),
    ),
  ),
)

take_options-arguments :
    (files : Bytes → Option Bytes) (settings : List Setting) (filename : Bytes) (p : Properties)
    → take_options files (arguments settings) (filename, p)
      ≡ ok ((filename, set_all p (settings_of settings)), [])
unfolding take_options take_option arguments
take_options-arguments files [] filename p = refl
take_options-arguments files (s ∷ rest) filename p =
    let (dash, other) = lookup-IsOption s.option s.key options options-IsOption s.known in
    rw (take_options, dash, other, s.known)
      (take_options-arguments files rest filename (set_property p s.key s.value))

-- On arguments that give settings, at least one, `ParseCommandLine` sets their properties in their
-- order and returns no file name.
pub parse_command_line-arguments :
    (files : Bytes → Option Bytes) (s : Setting) (rest : List Setting) (p : Properties)
    → parse_command_line files (arguments (s ∷ rest)) p
      ≡ ok ([], set_all p (settings_of (s ∷ rest)))
unfolding parse_command_line arguments
parse_command_line-arguments files s rest p =
    let e : take_options files (s.option ∷ s.value ∷ arguments rest) ([], p)
        ≡ ok (([], set_all p (settings_of (s ∷ rest))), []) =
      take_options-arguments files (s ∷ rest) [] p in
    rw e refl
