-- ===== src/Db/Mirrors/Seed.antt =====
-- `seed_curated` is idempotent: `PipelineDeps.build` runs it at every start.
use biblichor.Prelude.{
  ◌≡◌, refl, sym, ◌∙◌, String, Bool, true, false, ◌&&◌, ◌||◌, not, List, [], ◌∷◌, ◌++◌, arith, any,
  any-append, All, str_eq, str_eq_refl, if◌then◌else◌,
}
use biblichor.Prelude.Sql.{update_where, any-update_where, next_rowid}
use biblichor.Db.Mirrors.{
  Mirror, Mirrors, Curated, has_url, new_mirror, seed_new, disable_legacy, seed_curated,
}

abbrev Known : Mirrors → Curated → Type 0
Known t e = any (has_url e.url) t ≡ true

seed_new-Known' : (es : List Curated) (t : Mirrors) → All (Known t) es → seed_new es t ≡ (0, t)
unfolding seed_new
seed_new-Known' [] t h = refl
seed_new-Known' (e ∷ es) t h = rw h.0 (ground (arith, seed_new-Known' es t h.1))

-- A known URL stays known.
any-seed_new :
    (p : Mirror → Bool) (es : List Curated) (t : Mirrors)
    → any p t ≡ true
    → any p (seed_new es t).1 ≡ true
unfolding seed_new
any-seed_new p [] t h = h
any-seed_new p (e ∷ es) t h =
    let row = new_mirror (next_rowid (λ m. m.id) t) e.kind e.url e.label in
    ground
      (arith, any-seed_new p es t h, any-seed_new p es (t ++ row ∷ []), any-append p t (row ∷ []))

seed_new-Known : (es : List Curated) (t : Mirrors) → All (Known (seed_new es t).1) es
unfolding seed_new
seed_new-Known [] t = tt
seed_new-Known (e ∷ es) t =
    let row = new_mirror (next_rowid (λ m. m.id) t) e.kind e.url e.label in
    let t' = if any (has_url e.url) t then t else t ++ row ∷ [] in
    let known : any (has_url e.url) t' ≡ true =
      ground (arith, any-append (has_url e.url) t (row ∷ []), str_eq_refl e.url) in
    (any-seed_new (has_url e.url) es t' known, seed_new-Known es t')

-- The retired URLs: legacy, and no longer curated.
retired : List Curated → List String → String → Bool
retired curated [] url = false
retired curated (l ∷ urls) url =
    (not (any (λ e. str_eq e.url l) curated) && str_eq url l) || retired curated urls url

off : Mirror → Mirror
off m = record m { enabled = false }

-- Two updates of one kind are one, if the second test reads what the first leaves alone.
update_where-or :
    (p q : Mirror → Bool) (t : Mirrors)
    → ((m : Mirror) → q (off m) ≡ q m)
    → update_where q off (update_where p off t) ≡ update_where (λ m. p m || q m) off t
unfolding off
update_where-or p q [] h = refl
update_where-or p q (m ∷ t) h = ground (arith, h m, update_where-or p q t h)

off-disabled : (m : Mirror) → m.enabled ≡ false → off m ≡ m
unfolding off
off-disabled m e = λ i. record m { enabled = sym e i }

-- A test on `enabled` before switching off changes nothing.
update_where-enabled :
    (p : Mirror → Bool) (t : Mirrors)
    → update_where (λ m. p m && m.enabled) off t ≡ update_where p off t
update_where-enabled p [] = refl
update_where-enabled p (m ∷ t) = ground (arith, off-disabled m, update_where-enabled p t)

update_where-never :
    (p : Mirror → Bool) (t : Mirrors) → ((m : Mirror) → p m ≡ false) → update_where p off t ≡ t
update_where-never p [] h = refl
update_where-never p (m ∷ t) h = ground (arith, h m, update_where-never p t h)

update_where-same :
    (p q : Mirror → Bool) (t : Mirrors)
    → ((m : Mirror) → p m ≡ q m)
    → update_where p off t ≡ update_where q off t
update_where-same p q [] h = refl
update_where-same p q (m ∷ t) h = ground (arith, h m, update_where-same p q t h)

disable_step :
    (kept : Bool) (curated : List Curated) (l : String) (urls : List String) (t : Mirrors)
    → ((s : Mirrors)
        → disable_legacy curated urls s ≡ update_where (λ m. retired curated urls m.url) off s)
    → disable_legacy curated urls
        (if kept then t else update_where (λ m. has_url l m && m.enabled) off t)
      ≡ update_where (λ m. (not kept && str_eq m.url l) || retired curated urls m.url) off t
disable_step true curated l urls t ih =
    ih t ∙ update_where-same (λ m. retired curated urls m.url) _ t (λ m. refl)
disable_step false curated l urls t ih = rw (update_where-enabled (has_url l) t) (
    ih (update_where (has_url l) off t)
    ∙ update_where-or (has_url l) (λ m. retired curated urls m.url) t (unfold off in λ m. refl)
    ∙ update_where-same (λ m. has_url l m || retired curated urls m.url) _ t (λ m. refl))

disable_legacy-retired :
    (curated : List Curated) (urls : List String) (t : Mirrors)
    → disable_legacy curated urls t ≡ update_where (λ m. retired curated urls m.url) off t
unfolding disable_legacy retired off
disable_legacy-retired curated [] t = sym (update_where-never (λ m. false) t (λ m. refl))
disable_legacy-retired curated (l ∷ urls) t =
    disable_step (any (λ e. str_eq e.url l) curated) curated l urls t
      (disable_legacy-retired curated urls)

disable_legacy-disable_legacy :
    (curated : List Curated) (urls : List String) (t : Mirrors)
    → disable_legacy curated urls (disable_legacy curated urls t) ≡ disable_legacy curated urls t
disable_legacy-disable_legacy curated urls t =
    let p = λ (m : Mirror). retired curated urls m.url in
    rw (disable_legacy-retired curated urls t) (
      disable_legacy-retired curated urls (update_where p off t)
      ∙ update_where-or p p t (unfold off in λ m. refl)
      ∙ update_where-same (λ m. p m || p m) p t (λ m. ground arith))

Known-disable_legacy :
    (curated : List Curated) (urls : List String) (t : Mirrors) (es : List Curated)
    → All (Known t) es
    → All (Known (disable_legacy curated urls t)) es
Known-disable_legacy curated urls t [] h = tt
Known-disable_legacy curated urls t (e ∷ es) h = (
  rw (disable_legacy-retired curated urls t) (
      any-update_where (has_url e.url) (λ m. retired curated urls m.url) off t
        (unfold off in λ m. refl)
      ∙ h.0),
  Known-disable_legacy curated urls t es h.1,
)

-- A second run of `seed_curated` inserts nothing and leaves the table as the first run left it.
pub seed_curated_idempotent :
    (curated : List Curated) (legacy : List String) (t : Mirrors)
    → let t' = (seed_curated curated legacy t).1 in seed_curated curated legacy t' ≡ (0, t')
unfolding seed_curated
seed_curated_idempotent curated legacy t =
    let t' = (seed_new curated t).1 in
    let known = Known-disable_legacy curated legacy t' curated (seed_new-Known curated t) in
    rw (seed_new-Known' curated (disable_legacy curated legacy t') known)
      (rw (disable_legacy-disable_legacy curated legacy t'))
