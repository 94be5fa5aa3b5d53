-- ===== src/Tests/Runs.antt =====
-- The command line and the loading loop at concrete inputs.
use ycsb_lsm.Base.{
  ℕ, ◌≡◌, refl, [], ◌∷◌, none, codes, ok, Returns, arith, same, ◌+◌, ◌<◌, ◌⊎◌, All, below,
}
use ycsb_lsm.Base.Int.{pos}
use ycsb_lsm.Platform.Model.{counting, counting-IsStandard}
use ycsb_lsm.Properties.{no_properties}
use ycsb_lsm.Properties.Loading.{set_all}
use ycsb_lsm.UnorderedMap.{lookup}
use ycsb_lsm.UnorderedMap.Model.{listing, listing-IsContainer}
use ycsb_lsm.Hashtable.{get, c_str}
use ycsb_lsm.HashtableDb.{KeyHashtable, hashtable_db}
use ycsb_lsm.HashtableDb.Contract.{record_at}
use ycsb_lsm.Workload.{rounds}
use ycsb_lsm.Client.{Shared}
use ycsb_lsm.Driver.{parse_command_line, load_loop}
use ycsb_lsm.Driver.Options.{Setting, arguments, settings_of, parse_command_line-arguments}
use ycsb_lsm.Driver.Loads.{index_of, IsLoadable, IsThere, load_loop-All}
use ycsb_lsm.Driver.Loads.Skips.{multiples, IsLeft, load_loop_skips}
use ycsb_lsm.Tests.Workloads.{ten_records}
use ycsb_lsm.Tests.Databases.{ticking}

four_threads : Setting
four_threads = record {
  option = codes "-threads";
  key = codes "threadcount";
  value = codes "4";
  known = unfold lookup same in refl;
}

parse_command_line-arguments_example :
    parse_command_line (λ name. none) (arguments (four_threads ∷ [])) no_properties
    ≡ ok ([], set_all no_properties (settings_of (four_threads ∷ [])))
parse_command_line-arguments_example =
    parse_command_line-arguments (λ name. none) four_threads [] no_properties

abbrev pub other_record : KeyHashtable listing
other_record = (codes "x", []) ∷ []

abbrev pub other_shared : Shared counting (hashtable_db listing) ticking
other_shared = record {
  workload = ten_records;
  db = other_record;
  ops = λ i. 0;
  durations = λ i. 0;
}

pub ten_records-IsLoadable :
    IsLoadable listing listing-IsContainer counting counting-IsStandard ticking 8 8 2 ten_records
ten_records-IsLoadable = record {
  ordered = refl;
  table = (
    λ h. omega arith,
    (
      λ h. omega arith,
      (
        λ h. omega arith,
        (
          λ h. omega arith,
          (
            λ h. omega arith,
            (λ h. omega arith, (λ h. omega arith, (λ h. omega arith, (λ h. omega arith, tt)))),
          ),
        ),
      ),
    ),
  );
  room = omega arith;
  lengths = (omega arith, omega arith);
  few = unfold rounds in omega arith;
}

pub records_absent :
    (m : ℕ) → m < 2 → record_at listing other_record (index_of (codes "usertable") (0 + m)) ≡ none
unfolding get lookup same c_str
records_absent m p = refl

-- The database that `main` starts from.
abbrev new_shared : Shared counting (hashtable_db listing) ticking
new_shared = record other_shared { db = [] }

nothing_there :
    (m : ℕ) → m < 2 → record_at listing new_shared.db (index_of (codes "usertable") (0 + m)) ≡ none
unfolding get lookup
nothing_there m p = refl

load_loop-All_example :
    Returns (load_loop counting (hashtable_db listing) ticking (pos 0) 2 0 0 new_shared 3) λ r.
      (r.0.0 ≡ 0 + 2)
      × All
          (λ k.
            IsThere listing listing-IsContainer counting counting-IsStandard ticking 8 8 r.0.1.db
              (index_of (codes "usertable") (0 + k)))
          (below 2)
      × ((record_at listing new_shared.db (codes "x") ≡ none)
          ⊎ IsThere listing listing-IsContainer counting counting-IsStandard ticking 8 8 r.0.1.db
              (codes "x"))
load_loop-All_example =
    load_loop-All listing listing-IsContainer counting counting-IsStandard ticking 8 8 2 0 0
      (codes "x") new_shared 3 ten_records-IsLoadable nothing_there

load_loop_skips_example :
    Returns (load_loop counting (hashtable_db listing) ticking (pos 2) 2 0 0 new_shared 3) λ e.
      (e.0.0 ≡ 0 + multiples 2 0 2)
      × All
          (λ k.
            IsLeft listing listing-IsContainer counting counting-IsStandard ticking 8 8 2 e.0.1.db k
              (index_of (codes "usertable") (0 + k)))
          (below 2)
load_loop_skips_example =
    load_loop_skips listing listing-IsContainer counting counting-IsStandard ticking 8 8 2 2 0
      new_shared 3 (omega arith) (omega arith) ten_records-IsLoadable nothing_there
