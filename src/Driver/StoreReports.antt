-- ===== src/Driver/StoreReports.antt =====
-- The requests that the client threads of ycsbc.cc make of LevelDB of db/leveldb_db.cc.
use ycsb_lsm.Base.{
  ltb, if◌then◌else◌, inl, inr, Bool-cases, ℕ, ◌<◌, ◌≤◌, ◌≡◌, refl, ap, ◌∙◌, Bool, false, List, [],
  ◌∷◌, Bytes, codes, Run, ok, fault, undefined, ◌>>=◌, arith,
}
use ycsb_lsm.Base.Int.{ℤ}
use ycsb_lsm.Platform.{Platform}
use ycsb_lsm.Client.{System, Shared, client_new}
use ycsb_lsm.Stores.{Engine, Store, level_db}
use ycsb_lsm.Stores.Reports.{StopsAt}
use ycsb_lsm.Stores.Requests.{
  Outcome, starts_with, do_some_thing, level_db_do_some_thing, level_db_do_some_thing_overrun,
  level_db_do_some_thing_ends,
}
use ycsb_lsm.Driver.{thread_type}
use ycsb_lsm.Driver.Reports.{Requests, request_all, Ended, run_rounds, delegate_client}

module _ (E : Engine) (levels_fuel : ℕ) where
  -- `LevelDB` answers requests; the counter of "printFilterCount", which nobody here asks for, is left out.
  unfoldable pub level_requests : Requests (level_db E)
  unfolding level_db_do_some_thing
  level_requests = record {
    do_some_thing = λ thing s. do
      outcome ← level_db_do_some_thing E levels_fuel s 0 thing
      ok outcome.store;
    open_statistics = λ s. ok s;
  }

  -- The requests after the last round.
  abbrev last_requests : List Bytes
  last_requests = codes "printStats" ∷ codes "printAccessFreq" ∷ []

  -- The store after a request that is the last.
  abbrev kept : Run (Outcome E) → Run (Store E)
  kept o = (o >>= λ outcome. ok outcome.store) >>= λ s. ok s

  request_overrun :
      (s : Store E) (n : ℕ)
      → StopsAt E s.db 2 n
      → n < levels_fuel
      → 6 < n
      → request_all level_requests last_requests s ≡ fault undefined
  unfolding request_all level_requests do_some_thing starts_with
  request_overrun s n stops enough over =
      ap kept (level_db_do_some_thing_overrun E s n levels_fuel 0 stops enough over)

  request_ends :
      (s : Store E) (n : ℕ)
      → StopsAt E s.db 2 n
      → n < levels_fuel
      → n ≤ 6
      → request_all level_requests last_requests s ≡ ok s
  unfolding request_all level_requests do_some_thing starts_with
  request_ends s n stops enough room =
      let (outcome, ended, same) =
        level_db_do_some_thing_ends E s n levels_fuel 0 stops enough room in
      ap kept ended ∙ ap ok same.2

  module _ (P : Platform) (S : System P.World) where
    -- A client thread on LevelDB whose transactions are through asks for "printStats" and "printAccessFreq". If the levels 3 to 6 of
    -- the store are in use then, this is undefined behaviour; if level 3, or another up to level 6, is the first above
    -- level 2 that is not in use, the thread returns what it counted and leaves the store as it is.
    pub delegate_client_reports :
        (n fuel t_id num_ops processed_ops : ℕ) (trace : List Bytes) (opens : Bool) (readers : ℤ)
        (warm : Bool) (s : Shared P (level_db E) S) (w : P.World)
        (r : Ended P (level_db E) level_requests S)
        → run_rounds P
            (level_db E)
            level_requests
            S
            fuel
            s.workload.skipratio_forrun
            num_ops
            0
            0
            processed_ops
            (client_new P
              (level_db E)
              S
              trace
              opens
              s.workload
              t_id
              (thread_type t_id readers warm))
            s
            w
          ≡ ok r
        → StopsAt E r.0.1.db.db 2 n
        → n < levels_fuel
        → delegate_client P
            (level_db E)
            level_requests
            S
            fuel
            t_id
            trace
            opens
            num_ops
            false
            readers
            warm
            processed_ops
            s
            w
          ≡ (if ltb 6 n then fault undefined else ok r)
    unfolding delegate_client
    delegate_client_reports n fuel t_id num_ops processed_ops trace opens readers warm s w r ran
          stops enough =
        elim (Bool-cases (ltb 6 n)) [
          | inl over ↦
              let over' : 6 < n = ground (arith, over) in
              rw (delegate_client, ran, request_overrun r.0.1.db n stops enough over', over) refl
          | inr room ↦
              let room' : n ≤ 6 = ground (arith, room) in
              rw (delegate_client, ran, request_ends r.0.1.db n stops enough room', room) refl
        ]
