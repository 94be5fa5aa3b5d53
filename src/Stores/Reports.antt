-- ===== src/Stores/Reports.antt =====
-- How many levels the reports count, how many files they write, and when they leave the array `fd`.
use mathlib.Core.Path.{subst}
use ycsb_lsm.Base.{
  ℕ, suc, zero, ◌+◌, ◌*◌, ◌≤◌, ◌<◌, ◌≡◌, ◌⊎◌, inl, inr, refl, sym, ◌∙◌, Bool, true, false, [], ◌∷◌,
  Bytes, leb, ltb, length, Bool-cases, ok, fault, undefined, Returns, arith, ◌>>=◌,
}
use ycsb_lsm.Base.Int.{is_zero, ℤ}
use ycsb_lsm.Convert.{stoi}
use ycsb_lsm.Stores.{Engine}
use ycsb_lsm.Stores.Levels.{
  access_frequencies_file, access_frequencies_property, extra_infos_file, extra_infos_property,
  filter_count_file, filter_size_property, Output, num_files_name, level_in_use, count_levels,
  write_property, write_levels, print_access_freq, write_filter_counts, print_filter_count,
}

module _ (E : Engine) (db : E.State) where
  -- The store knows the level and reports a number of files that is, or is not, zero.
  abbrev pub Reports : ℕ → Bool → Type 0
  Reports level empty =
      (held : Bytes)
      → (text : Bytes) × (files : ℤ) × (E.get_property db (num_files_name level) held
          ≡ (true, text))
        × (stoi text ≡ ok files)
        × (is_zero files ≡ empty)

  -- The store does not know the level.
  abbrev pub IsUnknown : ℕ → Type 0
  IsUnknown level = (held : Bytes) → (E.get_property db (num_files_name level) held).0 ≡ false

  -- The first level above `always` that holds no file or that the store does not know.
  pub record StopsAt (always n : ℕ) : Type 0 where
    pub above : always < n
    pub used : (i : ℕ) → always < i → i < n → Reports i false
    pub stop : Reports n true ⊎ IsUnknown n

  level_in_use-used :
      (i : ℕ) (held : Bytes)
      → Reports i false
      → (text : Bytes) × (level_in_use E db i held ≡ ok (true, text))
  unfolding level_in_use
  level_in_use-used i held h =
      let (text, files, known, read, some_files) = h held in
      (text, rw (level_in_use, known, read, some_files) refl)

  level_in_use-stop :
      (i : ℕ) (held : Bytes)
      → Reports i true ⊎ IsUnknown i
      → (text : Bytes) × (level_in_use E db i held ≡ ok (false, text))
  unfolding level_in_use
  level_in_use-stop i held (inl h) =
      let (text, files, known, read, no_files) = h held in
      (text, rw (level_in_use, known, read, no_files) refl)
  level_in_use-stop i held (inr h) =
      ((E.get_property db (num_files_name i) held).1, rw (level_in_use, h held) refl)

  count_levels-stop :
      (always levels fuel : ℕ) (held : Bytes)
      → leb levels always ≡ false
      → Reports levels true ⊎ IsUnknown levels
      → count_levels E db (suc fuel) always levels held ≡ ok levels
  unfolding count_levels
  count_levels-stop always levels fuel held beyond stop =
      let (text, asked) = level_in_use-stop levels held stop in
      rw (count_levels, beyond, asked) refl

  -- The rounds from a level on, with the number of levels that are left.
  count_levels-from :
      (always n : ℕ)
      → StopsAt always n
      → (k levels fuel : ℕ) (held : Bytes) → levels + k ≡ n
      → k < fuel
      → count_levels E db fuel always levels held ≡ ok n
  unfolding count_levels
  count_levels-from always n stops k levels zero held sum left = absurd (omega (arith, left))
  count_levels-from always n stops zero levels (suc fuel) held sum left =
      let here : levels ≡ n = omega (arith, sum) in
      let beyond : leb n always ≡ false = ground (arith, stops.above) in
      subst (λ l. count_levels E db (suc fuel) always l held ≡ ok n) (sym here)
        (count_levels-stop always n fuel held beyond stops.stop)
  count_levels-from always n stops (suc k) levels (suc fuel) held sum left =
      let next : (text : Bytes) → count_levels E db fuel always (levels + 1) text ≡ ok n = λ text.
        count_levels-from always n stops k (levels + 1) fuel text (omega (arith, sum))
          (omega (arith, left)) in
      elim (Bool-cases (leb levels always)) [
        | inl counted ↦ rw (count_levels, counted) (next held)
        | inr beyond ↦
            let used = stops.used levels (ground (arith, beyond)) (omega (arith, sum)) in
            let (text, asked) = level_in_use-used levels held used in
            rw (count_levels, beyond, asked) (next text)
      ]

  -- The loops of the reports end, at the first level that is not in use, with one round more than levels.
  pub count_levels_ends :
      (always n fuel : ℕ) → StopsAt always n → n < fuel → count_levels E db fuel always 0 [] ≡ ok n
  count_levels_ends always n fuel stops enough =
      count_levels-from always n stops n 0 fuel [] (omega arith) enough

  write_property-room :
      (i : ℕ) (file property held : Bytes)
      → i < 7
      → write_property E db i file property held
        ≡ ok ((file, (E.get_property db property held).1), (E.get_property db property held).1)
  unfolding write_property
  write_property-room i file property held h =
      let room : ltb i 7 ≡ true = ground (arith, h) in rw room refl

  -- A round for a level for which the array has room.
  write_levels-round :
      (n i : ℕ) (held : Bytes)
      → i < 7
      → (a b : Output) × (text : Bytes) × (write_levels E db (suc n) i held
          ≡ (write_levels E db n (i + 1) text >>= λ rest. ok (a ∷ b ∷ rest)))
  unfolding write_levels
  write_levels-round n i held h =
      let frequencies = (E.get_property db (access_frequencies_property i) held).1 in
      let infos = (E.get_property db (extra_infos_property i) frequencies).1 in
      let first =
        write_property-room i (access_frequencies_file i) (access_frequencies_property i) held h in
      let second =
        write_property-room i (extra_infos_file i) (extra_infos_property i) frequencies h in
      (
        (access_frequencies_file i, frequencies),
        (extra_infos_file i, infos),
        infos,
        rw (write_levels, first, second) refl,
      )

  -- As long as the array has room, two files are written for each level.
  write_levels-within :
      (n i : ℕ) (held : Bytes)
      → i + n ≤ 7
      → Returns (write_levels E db n i held) (λ files. length files ≡ 2 * n)
  unfolding write_levels
  write_levels-within zero i held h = ([], refl, refl)
  write_levels-within (suc n) i held h =
      let (a, b, text, round) = write_levels-round n i held (omega (arith, h)) in
      let (files, written, count) = write_levels-within n (i + 1) text (omega (arith, h)) in
      (a ∷ b ∷ files, round ∙ rw written refl, omega (arith, count))

  write_levels-beyond :
      (n i : ℕ) (held : Bytes) → i ≤ 7 → 7 < i + n → write_levels E db n i held ≡ fault undefined
  unfolding write_levels
  write_levels-beyond zero i held h k = absurd (omega (arith, h, k))
  write_levels-beyond (suc n) i held h k = elim (Bool-cases (ltb i 7)) [
    | inl room ↦
        let (a, b, text, round) = write_levels-round n i held (ground (arith, room)) in
        let later = write_levels-beyond n (i + 1) text (ground (arith, room)) (omega (arith, k)) in
        round ∙ rw later refl
    | inr full ↦ rw (write_levels, write_property, full) refl
  ]

  -- With enough fuel `printAccessFreq` ends normally and writes two files for each level up to and with
  -- the first, above those that are counted in any case, that is not in use, if that is level 6 or
  -- below.
  pub print_access_freq_ends :
      (always n fuel : ℕ)
      → StopsAt always n
      → n < fuel
      → n ≤ 6
      → Returns (print_access_freq E db fuel always) (λ files. length files ≡ 2 * (n + 1))
  unfolding print_access_freq
  print_access_freq_ends always n fuel stops enough room =
      let counted = count_levels_ends always n fuel stops enough in
      let (files, written, count) = write_levels-within (n + 1) 0 [] (omega (arith, room)) in
      (files, rw counted written, count)

  -- If the levels up to level 6 are in use or counted in any case, `printAccessFreq` opens a file past the
  -- end of `fd`.
  pub print_access_freq_overrun :
      (always n fuel : ℕ)
      → StopsAt always n
      → n < fuel
      → 6 < n
      → print_access_freq E db fuel always ≡ fault undefined
  unfolding print_access_freq
  print_access_freq_overrun always n fuel stops enough over =
      rw (count_levels_ends always n fuel stops enough)
        (write_levels-beyond (n + 1) 0 [] (omega arith) (omega (arith, over)))

  write_filter_counts-within :
      (call_count n i : ℕ) (held : Bytes)
      → i + n ≤ 7
      → Returns (write_filter_counts E db call_count n i held) (λ files. length files ≡ n)
  unfolding write_filter_counts
  write_filter_counts-within call_count zero i held h = ([], refl, refl)
  write_filter_counts-within call_count (suc n) i held h =
      let text = (E.get_property db (filter_size_property i) held).1 in
      let first =
        write_property-room i (filter_count_file i call_count) (filter_size_property i) held
          (omega (arith, h)) in
      let (files, written, count) =
        write_filter_counts-within call_count n (i + 1) text (omega (arith, h)) in
      (
        (filter_count_file i call_count, text) ∷ files,
        rw (write_filter_counts, first, written) refl,
        omega (arith, count),
      )

  -- With enough fuel `printFilterCount` writes one file for each level below the first from level 1 on
  -- that is not in use, and counts the call, if that is level 7 or below.
  pub print_filter_count_lem :
      (n fuel call_count : ℕ)
      → StopsAt 0 n
      → n < fuel
      → n ≤ 7
      → Returns
          (print_filter_count E db fuel call_count)
          (λ r. (length r.0 ≡ n) × (r.1 ≡ call_count + 1))
  unfolding print_filter_count
  print_filter_count_lem n fuel call_count stops enough room =
      let counted = count_levels_ends 0 n fuel stops enough in
      let (files, written, count) = write_filter_counts-within call_count n 0 [] (omega arith) in
      ((files, call_count + 1), rw (print_filter_count, counted, written) refl, (count, refl))
