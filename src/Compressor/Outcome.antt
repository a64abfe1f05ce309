-- ===== src/Compressor/Outcome.antt =====
-- `compress_pid` of daemon/src/compressor.rs: its system calls, when it counts as a real success,
-- and the bytes that it accounts for.
use bssl_ram.Prelude.{
  ℕ, ◌+◌, ◌≤◌, ◌<◌, ◌≡◌, ◌≢◌, refl, sym, ap, ◌∙◌, ◌↔◌, Bool, true, false, Option, none, some, List,
  [], ◌∷◌, ◌++◌, map, arith, length, count_if, All, In, Option-cases, inl, inr, if◌then◌else◌,
}
use mathlib.Core.Path.{subst}
use mathlib.Core.List.{append_assoc, append-nil}
use bssl_ram.Prelude.Text.{Text}
use bssl_ram.Compressor.{
  Kernel, opened, advised, closed, Batches, no_batches, CompressOutcome, is_real_success, chunks,
  advise_chunk, advise_chunks, page_out, compress_pid, parse_anon_regions, iov_max,
}
use bssl_ram.Compressor.Chunks.{concat, concat-chunks, chunks-bounded, length-chunks}

abbrev pub is_error : Option ℕ → Bool
is_error none = true
is_error (some ret) = false

module _ (k : Kernel) (pidfd : ℕ) where
  -- The kernel's answers to the batches, counted from the given number.
  abbrev pub answers : ℕ → List (List (ℕ × ℕ)) → List (Option ℕ)
  answers n [] = []
  answers n (c ∷ cs) = k.process_madvise pidfd n c ∷ answers (n + 1) cs

  advise_chunk_lem :
      (b : Batches) (c : List (ℕ × ℕ))
      → ((advise_chunk k pidfd b c).batches_done ≡ b.batches_done + 1)
        × ((advise_chunk k pidfd b c).batches_failed
            ≡ b.batches_failed
              + (if is_error (k.process_madvise pidfd b.batches_done c) then 1 else 0))
        × ((advise_chunk k pidfd b c).calls ≡ b.calls ++ advised pidfd c ∷ [])
  unfolding advise_chunk
  advise_chunk_lem b c = ground arith

  advise_chunks_lem :
      (b : Batches) (cs : List (List (ℕ × ℕ)))
      → ((advise_chunks k pidfd b cs).batches_done ≡ b.batches_done + length cs)
        × ((advise_chunks k pidfd b cs).batches_failed
            ≡ b.batches_failed + count_if is_error (answers b.batches_done cs))
        × ((advise_chunks k pidfd b cs).calls ≡ b.calls ++ map (λ c. advised pidfd c) cs)
  unfolding advise_chunks
  advise_chunks_lem b [] = (omega arith, omega arith, sym (append-nil b.calls))
  advise_chunks_lem b (c ∷ cs) =
      let b' = advise_chunk k pidfd b c in
      let (done, failed, calls) = advise_chunks_lem b' cs in
      let (done', failed', calls') = advise_chunk_lem b c in
      (
        omega arith,
        failed ∙ rw (failed', done') (omega arith),
        calls
            ∙ (ap (λ r. r ++ map (λ c. advised pidfd c) cs) calls'
                ∙ append_assoc b.calls (advised pidfd c ∷ []) (map (λ c. advised pidfd c) cs)),
      )

-- The batches of a process whose smaps text is given.
abbrev pub batches_of : Text → List (List (ℕ × ℕ))
batches_of smaps = let regions = parse_anon_regions smaps in chunks (length regions) iov_max regions

compress_run :
    (k : Kernel) (pid pidfd : ℕ) (smaps : Text)
    → k.smaps pid ≡ some smaps
    → k.pidfd_open pid ≡ some pidfd
    → compress_pid k pid false ≡ (
      some (page_out k pidfd (parse_anon_regions smaps)).0,
      opened pid ∷ (page_out k pidfd (parse_anon_regions smaps)).1,
    )
unfolding compress_pid
compress_run k pid pidfd smaps read open' = ground arith

compress_unread :
    (k : Kernel) (pid : ℕ) → k.smaps pid ≡ none → compress_pid k pid false ≡ (none, [])
unfolding compress_pid
compress_unread k pid e = ground arith

compress_unopened :
    (k : Kernel) (pid : ℕ) (smaps : Text)
    → k.smaps pid ≡ some smaps
    → k.pidfd_open pid ≡ none
    → compress_pid k pid false ≡ (none, opened pid ∷ [])
unfolding compress_pid
compress_unopened k pid smaps read e = ground arith

length-pos : (xs : List (ℕ × ℕ)) → (0 < length xs) ↔ (xs ≢ [])
length-pos [] = ground arith
length-pos (x ∷ xs) = ground arith

-- If the smaps text can be read and the pidfd opened, a real run advises every region exactly once
-- and in order, in batches of 1 to `IOV_MAX` regions, all through the one pidfd, which is opened
-- first and closed last, whatever the kernel answers.
pub compress_pid-calls :
    (k : Kernel) (pid pidfd : ℕ) (smaps : Text)
    → k.smaps pid ≡ some smaps
    → k.pidfd_open pid ≡ some pidfd
    → ((compress_pid k pid false).1
        ≡ opened pid ∷ map (λ c. advised pidfd c) (batches_of smaps) ++ closed pidfd ∷ [])
      × (concat (batches_of smaps) ≡ parse_anon_regions smaps)
      × All (λ c. (0 < length c) × (length c ≤ iov_max)) (batches_of smaps)
unfolding page_out
compress_pid-calls k pid pidfd smaps read open' =
    let regions = parse_anon_regions smaps in
    (
      ap (λ r. r.1) (compress_run k pid pidfd smaps read open')
          ∙ ap (λ r. opened pid ∷ (r ++ closed pidfd ∷ []))
              ((advise_chunks_lem k pidfd no_batches (batches_of smaps)).2),
      concat-chunks (length regions) iov_max regions (omega arith) (omega arith),
      chunks-bounded (length regions) iov_max regions (omega arith),
    )

-- A dry run makes no system call and has no effect that it could report: its outcome is marked as a
-- dry run, advises no byte and is never a real success.
pub compress_pid_dry :
    (k : Kernel) (pid : ℕ)
    → ((compress_pid k pid true).1 ≡ [])
      × ((o : CompressOutcome)
          → (compress_pid k pid true).0 ≡ some o
          → (is_real_success o ≡ false) × (o.was_dry_run ≡ true) × (o.bytes_advised ≡ 0))
unfolding compress_pid is_real_success
compress_pid_dry k pid = (ground arith, λ o e. ground arith)

page_out_success :
    (k : Kernel) (pidfd : ℕ) (smaps : Text)
    → (is_real_success (page_out k pidfd (parse_anon_regions smaps)).0 ≡ true) ↔ (
        (parse_anon_regions smaps ≢ [])
        × (count_if is_error (answers k pidfd 0 (batches_of smaps)) ≡ 0))
unfolding page_out is_real_success
page_out_success k pidfd smaps =
    let regions = parse_anon_regions smaps in
    let (done, failed, calls) = advise_chunks_lem k pidfd no_batches (batches_of smaps) in
    ground (arith, length-chunks (length regions) regions (omega arith), length-pos regions)

-- A run counts as a real success exactly when it is no dry run, the process has a region to page
-- out, and the kernel accepted every batch.
pub compress_pid_success_iff :
    (k : Kernel) (pid : ℕ) (dry_run : Bool)
    → ((o : CompressOutcome) × ((compress_pid k pid dry_run).0 ≡ some o)
        × (is_real_success o ≡ true))
      ↔ ((dry_run ≡ false)
          × (smaps : Text) × (pidfd : ℕ) × (k.smaps pid ≡ some smaps)
          × (k.pidfd_open pid ≡ some pidfd)
          × (parse_anon_regions smaps ≢ [])
          × (count_if is_error (answers k pidfd 0 (batches_of smaps)) ≡ 0))
compress_pid_success_iff k pid true =
    (λ (o, e, s). absurd (cc (((compress_pid_dry k pid).1 o e).0, s)), λ x. absurd (cc (x.0)))
compress_pid_success_iff k pid false = (forth, back)
  where
    forth :
        ((o : CompressOutcome) × ((compress_pid k pid false).0 ≡ some o)
          × (is_real_success o ≡ true))
        → (false ≡ false)
          × (smaps : Text) × (pidfd : ℕ) × (k.smaps pid ≡ some smaps)
          × (k.pidfd_open pid ≡ some pidfd)
          × (parse_anon_regions smaps ≢ [])
          × (count_if is_error (answers k pidfd 0 (batches_of smaps)) ≡ 0)
    forth (o, e, s) = elim (Option-cases (k.smaps pid)) [
      | inl unread ↦ absurd (cc (ap (λ r. r.0) (compress_unread k pid unread), e))
      | inr (smaps, read) ↦ elim (Option-cases (k.pidfd_open pid)) [
        | inl unopened ↦
            absurd (cc (ap (λ r. r.0) (compress_unopened k pid smaps read unopened), e))
        | inr (pidfd, open') ↦
            let same : (page_out k pidfd (parse_anon_regions smaps)).0 ≡ o =
              cc (ap (λ r. r.0) (compress_run k pid pidfd smaps read open'), e) in
            let (ne, ok) = (page_out_success k pidfd smaps).0 (rw same s) in
            (refl, smaps, pidfd, read, open', ne, ok)
      ]
    ]

    back :
        (false ≡ false)
          × (smaps : Text) × (pidfd : ℕ) × (k.smaps pid ≡ some smaps)
          × (k.pidfd_open pid ≡ some pidfd)
          × (parse_anon_regions smaps ≢ [])
          × (count_if is_error (answers k pidfd 0 (batches_of smaps)) ≡ 0)
        → (o : CompressOutcome) × ((compress_pid k pid false).0 ≡ some o)
          × (is_real_success o ≡ true)
    back (_, smaps, pidfd, read, open', ne, ok) = (
      (page_out k pidfd (parse_anon_regions smaps)).0,
      ap (λ r. r.0) (compress_run k pid pidfd smaps read open'),
      (page_out_success k pidfd smaps).1 (ne, ok),
    )

not-In-advised :
    (p pidfd : ℕ) (cs : List (List (ℕ × ℕ)))
    → ¬ In (opened p) (map (λ c. advised pidfd c) cs ++ closed pidfd ∷ [])
not-In-advised p pidfd [] (inl e) = cc
not-In-advised p pidfd [] (inr i) = i
not-In-advised p pidfd (c ∷ cs) (inl e) = cc
not-In-advised p pidfd (c ∷ cs) (inr i) = not-In-advised p pidfd cs i

-- The only process that is opened is the one asked for, and in a dry run none is.
pub compress_pid-opened :
    (k : Kernel) (pid : ℕ) (dry_run : Bool) (p : ℕ)
    → In (opened p) (compress_pid k pid dry_run).1
    → (dry_run ≡ false) × (p ≡ pid)
compress_pid-opened k pid true p i = absurd (subst (In (opened p)) (compress_pid_dry k pid).0 i)
compress_pid-opened k pid false p i = elim (Option-cases (k.smaps pid)) [
  | inl unread ↦ absurd (subst (In (opened p)) (ap (λ r. r.1) (compress_unread k pid unread)) i)
  | inr (smaps, read) ↦ elim (Option-cases (k.pidfd_open pid)) [
    | inl unopened ↦
        elim (subst (In (opened p)) (ap (λ r. r.1) (compress_unopened k pid smaps read unopened))
          i) [ inl e ↦ (refl, cc) | inr none_left ↦ absurd none_left ]
    | inr (pidfd, open') ↦
        elim (subst (In (opened p)) (compress_pid-calls k pid pidfd smaps read open').0 i) [
          | inl e ↦ (refl, cc)
          | inr later ↦ absurd (not-In-advised p pidfd (batches_of smaps) later)
        ]
  ]
]
