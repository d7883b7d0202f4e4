-- ===== src/Kindle/Pack/Partition.antt =====
-- `_pack_batches` splits the files into batches within both limits and loses none of them.
use mathlib.Core.List.{append_assoc, append-nil}
use biblichor.Prelude.{
  ℕ, ◌+◌, ◌≤◌, ◌<◌, ◌≡◌, refl, sym, ap, ◌∙◌, Bool, true, false, not, ◌&&◌, ◌||◌, List, [], ◌∷◌,
  ◌++◌, length, length-append, leb, ltb, max, All, All-append, select, Bool-cases, inl, inr, arith,
}
use biblichor.Kindle.Pack.{
  no_files, BookFile, Packing, is_started, add_file, close_batch, pack_step, pack_loop, finish,
  pack_batches,
}

abbrev pub total_bytes : List BookFile → ℕ
total_bytes [] = 0
total_bytes (bf ∷ bfs) = bf.size + total_bytes bfs

-- The files of all the batches, in order.
abbrev pub concat : List (List BookFile) → List BookFile
concat [] = []
concat (b ∷ bs) = b ++ concat bs

total_bytes-append :
    (xs ys : List BookFile) → total_bytes (xs ++ ys) ≡ total_bytes xs + total_bytes ys
total_bytes-append [] ys = omega arith
total_bytes-append (x ∷ xs) ys = omega (arith, total_bytes-append xs ys)

concat-append : (xs ys : List (List BookFile)) → concat (xs ++ ys) ≡ concat xs ++ concat ys
concat-append [] ys = refl
concat-append (x ∷ xs) ys = rw (concat-append xs ys) (sym (append_assoc x (concat xs) (concat ys)))

select-kept :
    (p : BookFile → Bool) (xs : List BookFile) (x : BookFile)
    → p x ≡ true
    → select p (xs ++ x ∷ []) ≡ select p xs ++ x ∷ []
select-kept p [] x h = rw h
select-kept p (y ∷ xs) x h = ground (arith, select-kept p xs x h)

select-dropped :
    (p : BookFile → Bool) (xs : List BookFile) (x : BookFile)
    → p x ≡ false
    → select p (xs ++ x ∷ []) ≡ select p xs
select-dropped p [] x h = rw h
select-dropped p (y ∷ xs) x h = ground (arith, select-dropped p xs x h)

started_length : (b : List BookFile) → is_started b ≡ true → 0 < length b
started_length [] h = cc
started_length (bf ∷ bfs) h = omega arith

unstarted_nil : (b : List BookFile) → is_started b ≡ false → b ≡ []
unstarted_nil [] h = refl
unstarted_nil (bf ∷ bfs) h = cc

module _ (max_bytes max_files : ℕ) where
  -- A batch that may be sent: not empty, and within both limits. One file may always be alone.
  pub record IsBatch (b : List BookFile) : Type 0 where
    pub filled : 0 < length b
    pub bytes : total_bytes b ≤ max_bytes
    pub files : length b ≤ max 1 max_files

  abbrev pub fits : BookFile → Bool
  fits bf = not (ltb max_bytes bf.size)

  -- The variables of the loop after the files `done`.
  record Invariant (done : List BookFile) (p : Packing) : Type 0 where
    kept : concat p.batches ++ p.current ≡ select fits done
    left_out : p.oversized ≡ select (λ bf. ltb max_bytes bf.size) done
    batches : All IsBatch p.batches
    counted : p.current_bytes ≡ total_bytes p.current
    bytes : total_bytes p.current ≤ max_bytes
    files : length p.current ≤ max 1 max_files

  Invariant-oversized :
      (bf : BookFile) (done : List BookFile) (p : Packing)
      → ltb max_bytes bf.size ≡ true
      → Invariant done p
      → Invariant (done ++ bf ∷ []) (record p { oversized = p.oversized ++ bf ∷ [] })
  Invariant-oversized bf done p big h = record {
    kept = h.kept ∙ sym (select-dropped fits done bf (ground arith));
    left_out =
        ap (λ l. l ++ bf ∷ []) h.left_out
        ∙ sym (select-kept (λ x. ltb max_bytes x.size) done bf big);
    batches = h.batches;
    counted = h.counted;
    bytes = h.bytes;
    files = h.files;
  }

  Invariant-close_batch :
      (done : List BookFile) (p : Packing)
      → is_started p.current ≡ true
      → Invariant done p
      → Invariant done (close_batch p)
  Invariant-close_batch done p started h = record {
    kept =
        rw (append-nil, concat-append p.batches (p.current ∷ []))
          (ap (λ l. concat p.batches ++ l) (append-nil p.current) ∙ h.kept);
    left_out = h.left_out;
    batches = All-append IsBatch p.batches (p.current ∷ []) h.batches (
      record { filled = started_length p.current started; bytes = h.bytes; files = h.files },
      tt,
    );
    counted = refl;
    bytes = omega arith;
    files = omega arith;
  }

  Invariant-add_file :
      (bf : BookFile) (done : List BookFile) (p : Packing)
      → ltb max_bytes bf.size ≡ false
      → p.current_bytes + bf.size ≤ max_bytes
      → length p.current + 1 ≤ max 1 max_files
      → Invariant done p
      → Invariant (done ++ bf ∷ []) (add_file bf p)
  Invariant-add_file bf done p small bytes files h = record {
    kept =
        sym (append_assoc (concat p.batches) p.current (bf ∷ []))
        ∙ ap (λ l. l ++ bf ∷ []) h.kept
        ∙ sym (select-kept fits done bf (ground arith));
    left_out = h.left_out ∙ sym (select-dropped (λ x. ltb max_bytes x.size) done bf small);
    batches = h.batches;
    counted = omega (arith, total_bytes-append p.current (bf ∷ []), h.counted);
    bytes = omega (arith, total_bytes-append p.current (bf ∷ []), h.counted);
    files = omega (arith, length-append p.current (bf ∷ []));
  }

  pack_step-Invariant :
      (bf : BookFile) (done : List BookFile) (p : Packing)
      → Invariant done p
      → Invariant (done ++ bf ∷ []) (pack_step max_bytes max_files bf p)
  unfolding pack_step
  pack_step-Invariant bf done p h = elim (Bool-cases (ltb max_bytes bf.size)) [
    | inl big ↦ rw big (Invariant-oversized bf done p big h)
    | inr small ↦
        elim (Bool-cases (
          is_started p.current
          && (ltb max_bytes (p.current_bytes + bf.size) || leb max_files (length p.current)))) [
            | inl full ↦
                rw (small, full)
                  (Invariant-add_file bf done (close_batch p) small (ground arith) (omega arith)
                    (Invariant-close_batch done p (ground arith) h))
            | inr room ↦
                rw (small, room)
                  (elim (Bool-cases (is_started p.current)) [
                    | inl started ↦
                        Invariant-add_file bf done p small (ground arith) (ground arith) h
                    | inr fresh ↦
                        let none_yet = unstarted_nil p.current fresh in
                        Invariant-add_file bf done p small
                          (ground (arith, ap total_bytes none_yet, h.counted))
                          (ground (arith, ap length none_yet)) h
                  ])
          ]
  ]

  pack_loop-Invariant :
      (bfs done : List BookFile) (p : Packing)
      → Invariant done p
      → Invariant (done ++ bfs) (pack_loop max_bytes max_files bfs p)
  unfolding pack_loop
  pack_loop-Invariant [] done p h = rw append-nil h
  pack_loop-Invariant (bf ∷ bfs) done p h = rw (← append_assoc done (bf ∷ []) bfs) (
      pack_loop-Invariant bfs (done ++ bf ∷ []) (pack_step max_bytes max_files bf p)
        (pack_step-Invariant bf done p h))

  Invariant-no_files : Invariant [] no_files
  Invariant-no_files = record {
    kept = refl;
    left_out = refl;
    batches = tt;
    counted = refl;
    bytes = omega arith;
    files = omega arith;
  }

  abbrev IsPartition : List BookFile → List (List BookFile) → List BookFile → Type 0
  IsPartition files batches oversized =
      (concat batches ≡ select fits files)
      × (oversized ≡ select (λ bf. ltb max_bytes bf.size) files)
      × All IsBatch batches

  finish-IsPartition :
      (files : List BookFile) (p : Packing)
      → Invariant files p
      → IsPartition files (finish p).0 (finish p).1
  finish-IsPartition files p h = elim (Bool-cases (is_started p.current)) [
    | inl started ↦
        let closed = Invariant-close_batch files p started h in
        rw started (
          sym (append-nil (concat (p.batches ++ p.current ∷ []))) ∙ closed.kept,
          h.left_out,
          closed.batches,
        )
    | inr fresh ↦ rw fresh (
      sym (append-nil (concat p.batches))
          ∙ ap (λ l. concat p.batches ++ l) (sym (unstarted_nil p.current fresh))
          ∙ h.kept,
      h.left_out,
      h.batches,
    )
  ]

  -- The batches together are the files that fit, in their order, and the oversized files are the
  -- others; no batch is empty, or has more than `max_bytes` in total or, but for one single file,
  -- more than `max_files` files.
  pub pack_batches_partition :
      (files : List BookFile)
      → let (batches, oversized) = pack_batches max_bytes max_files files in
        (concat batches ≡ select fits files)
        × (oversized ≡ select (λ bf. ltb max_bytes bf.size) files)
        × All IsBatch batches
  unfolding pack_batches
  pack_batches_partition files =
      finish-IsPartition files (pack_loop max_bytes max_files files no_files)
        (pack_loop-Invariant files [] no_files Invariant-no_files)
