-- ===== src/Config/Required.antt =====
-- The keys that a configuration file must hold.
use ycsb_lsm.Base.{
  ◌≡◌, refl, sym, ◌∙◌, std_exception, List, [], ◌∷◌, ◌++◌, Option, none, some, String, Bytes, codes,
  ok, fault, through, Bool, true, false, Option-cases, inl, inr, not, assert,
}
use ycsb_lsm.Config.{
  PropertyTree, get_value, Config, Shape, Switches, Caching, Sizes, set_config_path, load_tree,
  read_shape, read_switches, read_caching, read_sizes, read_string, read_int, read_unsigned,
  read_bool, read_float, checked_int,
}

abbrev shape_keys : List String
shape_keys =
    "basic.bloomFileName" ∷ "basic.vlogFileName" ∷ "basic.bloomBits" ∷ "basic.maxFileSize"
    ∷ "basic.regionDivideSize" ∷ "basic.maxOpenFiles" ∷ "basic.bloomType" ∷ []

abbrev switches_keys : List String
switches_keys =
    "basic.openLog" ∷ "basic.compressionFlag" ∷ "basic.directIOFlag" ∷ "basic.seekCompactionFlag"
    ∷ "basic.forceDisableCompactionFlag" ∷ "basic.statisticsOpen" ∷ "basic.bitsArrayFileName"
    ∷ "basic.setFreCountInCompaction" ∷ []

abbrev caching_keys : List String
caching_keys =
    "basic.L0BaseRatio" ∷ "basic.extraValue1" ∷ "LRU.LRUNum" ∷ "LRU.filterCapacityRatio"
    ∷ "LRU.baseNum" ∷ "LRU.lifeTime" ∷ "LRU.logBase" ∷ "LRU.slowRatio" ∷ "LRU.changeRatio" ∷ []

abbrev sizes_keys : List String
sizes_keys =
    "basic.sizeRatio" ∷ "basic.valueSize" ∷ "basic.filterBaseLg" ∷ "basic.runMode"
    ∷ "basic.forceDeleteLevel0File" ∷ "LRU.initFilterNum" ∷ "basic.blockCacheSize" ∷ []

-- Every key but `basic.useLRUCache`, which has a default.
abbrev pub required_keys : List String
required_keys = shape_keys ++ switches_keys ++ caching_keys ++ sizes_keys

-- There is a text at each of the paths.
abbrev pub HoldsAll : (B : PropertyTree) → B.Tree → List String → Type 0
HoldsAll B pt [] = Unit
HoldsAll B pt (key ∷ keys) =
    ((text : Bytes) × (B.at pt (codes key) ≡ some text)) × HoldsAll B pt keys

get_value-found {ℓ} :
    {T : Type ℓ} (found : Option Bytes) (convert : Bytes → Option T) {value : T}
    → get_value found convert ≡ ok value
    → (text : Bytes) × (found ≡ some text)
unfolding get_value
get_value-found none convert h = cc
get_value-found (some text) convert h = (text, refl)

module _ (B : PropertyTree) (pt : B.Tree) where
  HoldsAll-append :
      (xs ys : List String) → HoldsAll B pt xs → HoldsAll B pt ys → HoldsAll B pt (xs ++ ys)
  HoldsAll-append [] ys p q = q
  HoldsAll-append (x ∷ xs) ys p q = (p.0, HoldsAll-append xs ys p.1 q)

  read_shape-HoldsAll : {shape : Shape B} → read_shape B pt ≡ ok shape → HoldsAll B pt shape_keys
  unfolding read_shape read_string read_int read_unsigned
  read_shape-HoldsAll run = through (read_string B pt "basic.bloomFileName") _ run λ a ha run.
      through (read_string B pt "basic.vlogFileName") _ run λ b hb run.
        through (read_int B pt "basic.bloomBits") _ run λ c hc run.
          through (read_int B pt "basic.maxFileSize") _ run λ d hd run.
            through (read_unsigned B pt "basic.regionDivideSize") _ run λ e he run.
              through (read_int B pt "basic.maxOpenFiles") _ run λ f hf run.
                through (read_int B pt "basic.bloomType") _ run λ g hg run. (
                  get_value-found _ _ ha,
                  (
                    get_value-found _ _ hb,
                    (
                      get_value-found _ _ hc,
                      (
                        get_value-found _ _ hd,
                        (
                          get_value-found _ _ he,
                          (get_value-found _ _ hf, (get_value-found _ _ hg, tt)),
                        ),
                      ),
                    ),
                  ),
                )

  read_switches-HoldsAll :
      {switches : Switches B} → read_switches B pt ≡ ok switches → HoldsAll B pt switches_keys
  unfolding read_switches read_string read_bool
  read_switches-HoldsAll run = through (read_bool B pt "basic.openLog") _ run λ a ha run.
      through (read_bool B pt "basic.compressionFlag") _ run λ b hb run.
        through (read_bool B pt "basic.directIOFlag") _ run λ c hc run.
          through (read_bool B pt "basic.seekCompactionFlag") _ run λ d hd run.
            through (read_bool B pt "basic.forceDisableCompactionFlag") _ run λ e he run.
              through (read_bool B pt "basic.statisticsOpen") _ run λ f hf run.
                through (read_string B pt "basic.bitsArrayFileName") _ run λ g hg run.
                  through (read_bool B pt "basic.setFreCountInCompaction") _ run λ h hh run. (
                    get_value-found _ _ ha,
                    (
                      get_value-found _ _ hb,
                      (
                        get_value-found _ _ hc,
                        (
                          get_value-found _ _ hd,
                          (
                            get_value-found _ _ he,
                            (
                              get_value-found _ _ hf,
                              (get_value-found _ _ hg, (get_value-found _ _ hh, tt)),
                            ),
                          ),
                        ),
                      ),
                    ),
                  )

  read_caching-HoldsAll :
      {caching : Caching B} → read_caching B pt ≡ ok caching → HoldsAll B pt caching_keys
  unfolding read_caching read_int read_unsigned read_float
  read_caching-HoldsAll run = through (read_float B pt "basic.L0BaseRatio") _ run λ a ha run.
      through (read_float B pt "basic.extraValue1") _ run λ b hb run.
        through (read_int B pt "LRU.LRUNum") _ run λ c hc run.
          through (read_float B pt "LRU.filterCapacityRatio") _ run λ d hd run.
            through (read_int B pt "LRU.baseNum") _ run λ e he run.
              through (read_unsigned B pt "LRU.lifeTime") _ run λ f hf run.
                through (read_int B pt "LRU.logBase") _ run λ g hg run.
                  through (read_float B pt "LRU.slowRatio") _ run λ h hh run.
                    through (read_float B pt "LRU.changeRatio") _ run λ i hi run. (
                      get_value-found _ _ ha,
                      (
                        get_value-found _ _ hb,
                        (
                          get_value-found _ _ hc,
                          (
                            get_value-found _ _ hd,
                            (
                              get_value-found _ _ he,
                              (
                                get_value-found _ _ hf,
                                (
                                  get_value-found _ _ hg,
                                  (get_value-found _ _ hh, (get_value-found _ _ hi, tt)),
                                ),
                              ),
                            ),
                          ),
                        ),
                      ),
                    )

  read_sizes-HoldsAll : {sizes : Sizes B} → read_sizes B pt ≡ ok sizes → HoldsAll B pt sizes_keys
  unfolding read_sizes read_int read_unsigned read_bool read_float
  read_sizes-HoldsAll run = through (read_int B pt "basic.sizeRatio") _ run λ a ha run.
      through (read_int B pt "basic.valueSize") _ run λ b hb run.
        through (read_int B pt "basic.filterBaseLg") _ run λ c hc run.
          through (read_int B pt "basic.runMode") _ run λ d hd run.
            through (read_bool B pt "basic.forceDeleteLevel0File") _ run λ e he run.
              through (read_float B pt "LRU.initFilterNum") _ run λ x hx run.
                through (checked_int B (B.int_of_double x)) _ run λ whole from run.
                  through (read_unsigned B pt "basic.blockCacheSize") _ run λ f hf run. (
                    get_value-found _ _ ha,
                    (
                      get_value-found _ _ hb,
                      (
                        get_value-found _ _ hc,
                        (
                          get_value-found _ _ hd,
                          (
                            get_value-found _ _ he,
                            (get_value-found _ _ hx, (get_value-found _ _ hf, tt)),
                          ),
                        ),
                      ),
                    ),
                  )

pub assert-not : (b : Bool) → assert (not b) ≡ ok tt → b ≡ false
assert-not true h = cc
assert-not false h = refl

load_tree-HoldsAll :
    (B : PropertyTree) (pt : B.Tree) {config : Config B}
    → load_tree B pt ≡ ok config
    → (B.is_empty pt ≡ false) × HoldsAll B pt required_keys
unfolding load_tree
load_tree-HoldsAll B pt run = through (assert (not (B.is_empty pt))) _ run λ _ filled run.
    through (read_shape B pt) _ run λ shape p run.
      through (read_switches B pt) _ run λ switches q run.
        through (read_caching B pt) _ run λ caching r run.
          through (read_sizes B pt) _ run λ sizes s run.
            let later =
              HoldsAll-append B pt caching_keys sizes_keys (read_caching-HoldsAll B pt r)
                (read_sizes-HoldsAll B pt s) in
            let latest =
              HoldsAll-append B pt switches_keys (caching_keys ++ sizes_keys)
                (read_switches-HoldsAll B pt q) later in
            (
              assert-not (B.is_empty pt) filled,
              HoldsAll-append B pt shape_keys (switches_keys ++ caching_keys ++ sizes_keys)
                  (read_shape-HoldsAll B pt p) latest,
            )

-- If `setConfigPath` ends normally, the file could be read, its tree is not empty, and it holds a text at
-- each of the 31 required keys.
pub set_config_path-HoldsAll :
    (B : PropertyTree) (path : Bytes) {config : Config B}
    → set_config_path B path ≡ ok config
    → (pt : B.Tree) × (B.read_ini path ≡ some pt)
      × (B.is_empty pt ≡ false)
      × HoldsAll B pt required_keys
unfolding set_config_path
set_config_path-HoldsAll B path run = elim (Option-cases (B.read_ini path)) [
  | inl unread ↦
      let e : set_config_path B path
          ≡ fault (std_exception (codes "boost::property_tree::ini_parser::ini_parser_error")) =
        rw (set_config_path, unread) refl in
      cc
  | inr (pt, there) ↦
      let e : set_config_path B path ≡ load_tree B pt = rw (set_config_path, there) refl in
      let (filled, keys) = load_tree-HoldsAll B pt (sym e ∙ run) in (pt, there, filled, keys)
]
