-- ===== src/Gpm/Held.antt =====
-- What the cache holds after any samples (performance_highres.py, `NvidiaGpmHighresCache`).
use constella.Prelude.{
  ℕ, ◌≡◌, refl, Bool, true, false, ◌&&◌, Option, none, some, List, [], ◌∷◌, ◌++◌, text_eq,
  Bool-cases, inl, inr, if◌then◌else◌, ap, sym, subst, ◌∙◌, append-nil, append_assoc, and_false,
}
use constella.Gpm.Ring.{Performance, Ring, new, append}
use constella.Gpm.Runs.{append_all}
use constella.Prelude.Keyed.{
  find, find-alter_same, find-alter_other, AreDistinct, AreDistinct-alter,
}
use constella.Gpm.Keyed.{GpuKey, key_eq, gpu_keys}
use constella.Gpm.Cache.{
  Cache, new_cache, Sampled, or_new, kept, keep_if, gpm_profile, append_sample,
}

-- The calls of `append`, in order.
unfoldable pub append_samples : List Sampled → Cache → Cache
append_samples [] c = c
append_samples (s ∷ ss) c = append_samples ss (append_sample s c)

abbrev taken : ℕ → Option Performance → List (ℕ × Performance)
taken at none = []
taken at (some p) = if text_eq p.profile gpm_profile then (at, p) ∷ [] else []

-- The samples of a GPU: those of its key that have the profile of the counters.
unfoldable pub samples_of : GpuKey → List Sampled → List (ℕ × Performance)
samples_of k [] = []
samples_of k (s ∷ ss) =
    (if key_eq s.key k then taken s.sampled_at s.performance else []) ++ samples_of k ss

-- The ring that the samples make: there is none before the first.
abbrev pub made : ℕ → List (ℕ × Performance) → Option Ring
made n [] = none
made n (s ∷ ss) = some (append_all (s ∷ ss) (new n))

abbrev pub is_there {ℓ} : {A : Type ℓ} → Option A → Bool
is_there none = false
is_there (some a) = true

-- The cache holds the samples `before` of every GPU.
pub record Holds (n : ℕ) (before : GpuKey → List (ℕ × Performance)) (c : Cache) : Type 0 where
  pub size : c.capacity ≡ n
  pub on : c.enabled ≡ true
  pub rings : (k : GpuKey) → find k c.rings ≡ made n (before k)
  pub devices : (k : GpuKey) → is_there (find k c.devices) ≡ is_there (find k c.rings)
  pub distinct : AreDistinct c.rings

append_all-snoc :
    (xs : List (ℕ × Performance)) (at : ℕ) (p : Performance) (r : Ring)
    → append_all (xs ++ (at, p) ∷ []) r ≡ append at p (append_all xs r)
unfolding append_all
append_all-snoc [] at p r = refl
append_all-snoc ((t, o) ∷ xs) at p r = append_all-snoc xs at p (append t o r)

made-snoc :
    (n : ℕ) (xs : List (ℕ × Performance)) (at : ℕ) (p : Performance)
    → made n (xs ++ (at, p) ∷ []) ≡ some (append at p (or_new n (made n xs)))
made-snoc n [] at p = ap some (unfold append_all in refl)
made-snoc n (x ∷ xs) at p = ap some (append_all-snoc (x ∷ xs) at p (new n))

-- What a sample that is taken adds.
abbrev with_sample :
    GpuKey → ℕ → Performance → (GpuKey → List (ℕ × Performance)) → GpuKey → List (ℕ × Performance)
with_sample key at p before k = before k ++ (if key_eq key k then (at, p) ∷ [] else [])

Holds-kept :
    (n : ℕ) (before : GpuKey → List (ℕ × Performance)) (c : Cache) (s : Sampled) (p : Performance)
    → Holds n before c
    → Holds n (with_sample s.key s.sampled_at p before) (kept s p c)
Holds-kept n before c s p h = record {
  size = h.size;
  on = h.on;
  rings = (λ k. elim (Bool-cases (key_eq s.key k)) [
    | inl same ↦ simp same (
        find-alter_same s.key k _ c.rings same
        ∙ ap (λ m. some (append s.sampled_at p (or_new m (find k c.rings)))) h.size
        ∙ ap (λ o. some (append s.sampled_at p (or_new n o))) (h.rings k)
        ∙ sym (made-snoc n (before k) s.sampled_at p))
    | inr other ↦
        simp (other, append-nil (before k)) (find-alter_other s.key k _ c.rings other ∙ h.rings k)
  ]);
  devices = (λ k. elim (Bool-cases (key_eq s.key k)) [
    | inl same ↦
        rw (find-alter_same s.key k _ c.rings same, find-alter_same s.key k _ c.devices same) refl
    | inr other ↦
        rw (find-alter_other s.key k _ c.rings other, find-alter_other s.key k _ c.devices other)
          (h.devices k)
  ]);
  distinct = AreDistinct-alter s.key _ c.rings h.distinct;
}

-- The samples of a GPU after one more call.
abbrev pub and_then :
    (GpuKey → List (ℕ × Performance)) → List Sampled → GpuKey → List (ℕ × Performance)
and_then before ss k = before k ++ samples_of k ss

pub Holds-ext :
    (n : ℕ) (f g : GpuKey → List (ℕ × Performance)) (c : Cache)
    → ((k : GpuKey) → f k ≡ g k)
    → Holds n f c
    → Holds n g c
Holds-ext n f g c same h = record {
  size = h.size;
  on = h.on;
  rings = (λ k. h.rings k ∙ ap (made n) (same k));
  devices = h.devices;
  distinct = h.distinct;
}

-- The samples after a call whose profile is that of the counters, or is not.
abbrev with_call :
    GpuKey
    → ℕ
    → Performance
    → (GpuKey → List (ℕ × Performance))
    → Bool
    → GpuKey
    → List (ℕ × Performance)
with_call key at p before b k =
    before k ++ ((if key_eq key k then (if b then (at, p) ∷ [] else []) else []) ++ [])

Holds-append_sample :
    (n : ℕ) (before : GpuKey → List (ℕ × Performance)) (c : Cache) (s : Sampled)
    → Holds n before c
    → Holds n (and_then before (s ∷ [])) (append_sample s c)
unfolding append_sample samples_of
Holds-append_sample n before c s h = by_performance s.performance
  where
    nothing : (xs : List (ℕ × Performance)) (b : Bool) → xs ≡ xs ++ ((if b then [] else []) ++ [])
    nothing xs true = sym (append-nil xs)
    nothing xs false = sym (append-nil xs)

    padded :
        (xs ys : List (ℕ × Performance)) (b : Bool)
        → xs ++ (if b then ys else []) ≡ xs ++ ((if b then ys else []) ++ [])
    padded xs ys b = ap (λ zs. xs ++ zs) (sym (append-nil (if b then ys else [])))

    both : {a b : Bool} → a ≡ true → b ≡ true → (a && b) ≡ true
    both e f = rw (e, f) refl

    by_performance :
        (o : Option Performance)
        → Holds n
            (λ k. before k ++ ((if key_eq s.key k then taken s.sampled_at o else []) ++ []))
            (keep_if c.enabled s o c)
    by_performance none = Holds-ext n before _ c (λ k. nothing (before k) (key_eq s.key k)) h
    by_performance (some p) = elim (Bool-cases (text_eq p.profile gpm_profile)) [
      | inl counters ↦
          let goes : (c.enabled && text_eq p.profile gpm_profile) ≡ true = both h.on counters in
          subst (Holds n (with_call s.key s.sampled_at p before (text_eq p.profile gpm_profile)))
            (ap (λ b. if b then kept s p c else c) (sym goes))
            (Holds-ext n (with_sample s.key s.sampled_at p before) _ (kept s p c)
              (λ k.
                padded (before k) ((s.sampled_at, p) ∷ []) (key_eq s.key k)
                ∙ ap (λ b. with_call s.key s.sampled_at p before b k) (sym counters))
              (Holds-kept n before c s p h))
      | inr other ↦
          let stays : (c.enabled && text_eq p.profile gpm_profile) ≡ false =
            ap (λ b. c.enabled && b) other ∙ and_false c.enabled in
          subst (Holds n (with_call s.key s.sampled_at p before (text_eq p.profile gpm_profile)))
            (ap (λ b. if b then kept s p c else c) (sym stays))
            (Holds-ext n before _ c
              (λ k.
                nothing (before k) (key_eq s.key k)
                ∙ ap (λ b. with_call s.key s.sampled_at p before b k) (sym other))
              h)
    ]

pub Holds-append_samples :
    (n : ℕ) (before : GpuKey → List (ℕ × Performance)) (ss : List Sampled) (c : Cache)
    → Holds n before c
    → Holds n (and_then before ss) (append_samples ss c)
unfolding append_samples samples_of
Holds-append_samples n before [] c h = Holds-ext n before _ c (λ k. sym (append-nil (before k))) h
Holds-append_samples n before (s ∷ ss) c h =
    Holds-ext n _ _ _ (λ k. regroup (before k) _ (samples_of k ss))
      (Holds-append_samples n (and_then before (s ∷ [])) ss (append_sample s c)
        (Holds-append_sample n before c s h))
  where
    regroup : (xs ys zs : List (ℕ × Performance)) → (xs ++ (ys ++ [])) ++ zs ≡ xs ++ (ys ++ zs)
    regroup xs ys zs = append_assoc xs (ys ++ []) zs ∙ ap (λ ws. xs ++ (ws ++ zs)) (append-nil ys)

pub Holds-new : (n : ℕ) → Holds n (λ k. []) (new_cache n true)
unfolding find
Holds-new n = record {
  size = refl;
  on = refl;
  rings = (λ k. refl);
  devices = (λ k. refl);
  distinct = tt;
}
