-- ===== src/Download/Outcome.antt =====
-- What a download leaves.
use biblichor.Prelude.{
  ◌<◌, ◌⊎◌, inl, inr, ◌≡◌, refl, sym, ap, ◌∙◌, String, false, not, Option, none, some, List, [],
  ◌∷◌, ◌==◌, length, length-append, if-both, arith,
}
use biblichor.Prelude.Result.{Result, ok, err}
use biblichor.Download.{
  Bytes, Fault, raised, Failure, http_status, other, empty_body, md5_mismatch, rename_failed,
  Stream, Client, UrlTools, Md5, Disk, FileSystem, DownloadResult, Walk, is_html, html_failure,
  Progress, add_chunk, write_chunks, no_bytes, unlink_part, after_chunks, save_body, is_mismatch,
  finish, after_body, after_get, after_walk, walk_redirects, download,
}

module _ (H : Md5) (fs : FileSystem) where
  open H use {Hash, md5, update, hexdigest, update_nothing, update_append}

  -- The hash and the total are those of the bytes written.
  record IsExact (p : Progress H fs) : Type 0 where
    digested : p.hash ≡ update md5 p.written
    counted : p.total ≡ length p.written

  add_chunk-IsExact :
      (p : Progress H fs) (chunk : Bytes) → IsExact p → IsExact (add_chunk H fs p chunk)
  add_chunk-IsExact p [] h = h
  add_chunk-IsExact p (b ∷ bs) h = record {
    digested = ap (λ x. update x (b ∷ bs)) h.digested ∙ update_append md5 p.written (b ∷ bs);
    counted = omega (arith, h.counted, length-append p.written (b ∷ bs));
  }

  write_chunks-IsExact :
      (chunks : List Bytes) (p : Progress H fs) → IsExact p → IsExact (write_chunks H fs chunks p)
  unfolding write_chunks
  write_chunks-IsExact [] p h = h
  write_chunks-IsExact (chunk ∷ chunks) p h =
      write_chunks-IsExact chunks _ (add_chunk-IsExact p chunk h)

  no_bytes-IsExact : IsExact (no_bytes H fs)
  no_bytes-IsExact = record { digested = sym (update_nothing md5); counted = refl }

  -- No staging file is left, unless it cannot be removed.
  abbrev pub IsClean : Disk → Type 0
  IsClean d = (fs.can_unlink ≡ false) ⊎ (d.part ≡ none)

  -- A finished download has put bytes that are not empty at the final path; the size and the MD5
  -- are theirs, and the expected MD5 is not another one. A failed one leaves the final file alone.
  abbrev pub IsSettled : Option String → Disk → Result Failure DownloadResult × Disk → Type 0
  IsSettled expected before (ok res, after) =
      (bytes : Bytes) × (after.final ≡ some bytes)
      × (after.part ≡ none)
      × (res.size ≡ length bytes)
      × (0 < length bytes)
      × (res.md5 ≡ hexdigest (update md5 bytes))
      × (is_mismatch H fs expected res.md5 ≡ false)
  IsSettled expected before (err e, after) = (after.final ≡ before.final) × IsClean after

  unlink_part-IsClean : (d : Disk) → IsClean (unlink_part H fs d)
  unlink_part-IsClean d = if-both IsClean fs.can_unlink _ _ (λ e. inr refl) (λ e. inl e)

  unlink_part-final : (d : Disk) → (unlink_part H fs d).final ≡ d.final
  unlink_part-final d = ground arith

  given_up :
      (expected : Option String) (before d : Disk) (e : Failure)
      → d.final ≡ before.final
      → IsSettled expected before (err e, unlink_part H fs d)
  given_up expected before d e h = (unlink_part-final d ∙ h, unlink_part-IsClean d)

  finish_settles :
      (expected content_type : Option String) (p : Progress H fs) (before d : Disk)
      → IsExact p
      → d.part ≡ some p.written
      → d.final ≡ before.final
      → IsSettled expected before (finish H fs expected content_type p d)
  unfolding finish
  finish_settles expected content_type p before d exact part final =
      if-both (IsSettled expected before) (p.total == 0) _ _
        (λ e. given_up expected before d empty_body final)
        (λ some_bytes.
          if-both (IsSettled expected before) (is_mismatch H fs expected (hexdigest p.hash)) _ _
            (λ e. given_up expected before d md5_mismatch final)
            (λ matches.
              if-both (IsSettled expected before) fs.can_replace _ _
                (λ e. (
                  p.written,
                  part,
                  refl,
                  exact.counted,
                  ground (arith, some_bytes, exact.counted),
                  ap hexdigest exact.digested,
                  matches,
                ))
                (λ e. given_up expected before d rename_failed final)))

  after_chunks_settles :
      (expected content_type : Option String) (fault : Option Fault) (p : Progress H fs) (d : Disk)
      → IsExact p
      → IsSettled expected d (after_body H fs expected content_type (after_chunks H fs fault p d))
  after_chunks_settles expected content_type none p d exact =
      finish_settles expected content_type p d _ exact refl refl
  after_chunks_settles expected content_type (some f) p d exact =
      given_up expected d (record d { part = some p.written }) (raised f) refl

  save_body_settles :
      (expected : Option String) (r : Stream) (d : Disk)
      → IsSettled expected d (after_body H fs expected r.content_type (save_body H fs r d))
  unfolding save_body
  save_body_settles expected r d =
      let Goal : Result Failure (Progress H fs) × Disk → Type 0 =
        λ x. IsSettled expected d (after_body H fs expected r.content_type x) in
      if-both Goal (not (r.status_code == 200)) _ _
        (λ e. given_up expected d d (http_status r.status_code) refl)
        (λ e.
          if-both Goal (is_html r.content_type) _ _
            (λ h. given_up expected d d (html_failure r.fault) refl)
            (λ h.
              if-both Goal fs.can_open _ _
                (λ o.
                  after_chunks_settles expected r.content_type r.fault _ d
                    (write_chunks-IsExact r.chunks (no_bytes H fs) no_bytes-IsExact))
                (λ o. given_up expected d d other refl)))

  after_get_settles :
      (expected : Option String) (x : Result Fault Stream) (d : Disk)
      → IsSettled expected d (after_get H fs expected x d)
  after_get_settles expected (err f) d = given_up expected d d (raised f) refl
  after_get_settles expected (ok r) d = save_body_settles expected r d

  after_walk_settles :
      (client : Client) (expected : Option String) (w : Walk) (d : Disk)
      → IsSettled expected d (after_walk H fs client expected w d).0
  after_walk_settles client expected (err e, sent) d = given_up expected d d e refl
  after_walk_settles client expected (ok url, sent) d =
      after_get_settles expected (client.stream sent url) d

  -- A download that returns has put bytes at the final path, not empty, whose length and MD5 it
  -- returns, and whose MD5 is the expected one if one is given; no staging file is left. A download
  -- that raises leaves the final file as it was, and no staging file if it can be removed.
  pub download_settles :
      (tools : UrlTools) (client : Client) (expected : Option String) (url : String) (d : Disk)
      → IsSettled expected d (download H fs tools client expected url d).0
  unfolding download
  download_settles tools client expected url d =
      after_walk_settles client expected (walk_redirects tools client url) d
