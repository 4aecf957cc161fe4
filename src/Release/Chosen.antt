-- ===== src/Release/Chosen.antt =====
-- What the choice of a release gives: a release that matches, the latest of them by its date.
use eks_hybrid.Base.{
  ℕ, ◌≤◌, String, str_eq, str_eq_iff, ltb, if◌then◌else◌, ◌≡◌, refl, sym, ap, subst, ◌∙◌, ◌⊎◌, inl,
  inr, Bool, true, false, Option, none, some, List, [], ◌∷◌, ◌++◌, All, arith, Err, Result, ok, err,
}
use mathlib.Core.List.{Memᴰ}
use mathlib.Core.List.Memᴰ.{head, tail, append_cases}
use eks_hybrid.Release.Defs.{EksPatchRelease, SupportedEksRelease, Versions}
use eks_hybrid.Release.Select.{
  ◌>>=◌, require, choose, wanted_patch, patches_at, matched_releases, latest_by_date,
  latest_date_release,
}

pub >>=-ok {ℓ κ} :
    {A : Type ℓ} {B : Type κ} (r : Result A) (f : A → Result B) {b : B}
    → (r >>= f) ≡ ok b
    → (a : A) × (r ≡ ok a × f a ≡ ok b)
>>=-ok (ok a) f e = (a, (refl, e))
>>=-ok (err x) f e = cc

pub require-ok : (b : Bool) (x : Err) {u : Unit {0}} → require b x ≡ ok u → b ≡ true
require-ok true x e = refl
require-ok false x e = cc

-- `x` is dated, and not after `r`.
abbrev pub NotAfter : Versions → EksPatchRelease → EksPatchRelease → Type 0
NotAfter v r x =
    (a b : ℕ) × (v.parse_date x.release_date ≡ ok a × v.parse_date r.release_date ≡ ok b × a ≤ b)

module _ (v : Versions) where
  -- `r` is one of the releases, and none of them is dated after it.
  abbrev Latest : EksPatchRelease → EksPatchRelease → List EksPatchRelease → Type 0
  Latest r l rs = Memᴰ r (l ∷ rs) × NotAfter v r l × All (NotAfter v r) rs

  ok_injective : {a b : ℕ} → ◌≡◌ {A = Result ℕ} (ok a) (ok b) → a ≡ b
  ok_injective e = cc

  NotAfter-before :
      (r x y : EksPatchRelease) {a b : ℕ}
      → v.parse_date x.release_date ≡ ok a
      → v.parse_date y.release_date ≡ ok b
      → a ≤ b
      → NotAfter v r y
      → NotAfter v r x
  NotAfter-before r x y p q l (b', c, (q', s, l')) =
      (_, c, (p, s, (let e = ok_injective (sym q ∙ q') in omega (arith, e, l, l'))))

  Memᴰ-insert :
      {r l : EksPatchRelease} {rs : List EksPatchRelease} (x : EksPatchRelease)
      → Memᴰ r (l ∷ rs)
      → Memᴰ r (l ∷ x ∷ rs)
  Memᴰ-insert x (head e) = head e
  Memᴰ-insert x (tail m) = tail (tail m)

  later-Latest :
      (l x : EksPatchRelease) (rs : List EksPatchRelease) (r : EksPatchRelease) (a c : ℕ)
      → v.parse_date l.release_date ≡ ok a
      → v.parse_date x.release_date ≡ ok c
      → ((y : EksPatchRelease) (b : ℕ)
          → v.parse_date y.release_date ≡ ok b
          → latest_by_date v y rs ≡ ok r
          → Latest r y rs)
      → (t : Bool) → ltb a c ≡ t
      → latest_by_date v (if t then x else l) rs ≡ ok r
      → Latest r l (x ∷ rs)
  later-Latest l x rs r a c pa pc ih true t e =
      let (m, n, all) = ih x c pc e in
      (tail m, NotAfter-before r l x pa pc (ground arith) n, (n, all))
  later-Latest l x rs r a c pa pc ih false t e =
      let (m, n, all) = ih l a pa e in
      (Memᴰ-insert x m, n, (NotAfter-before r x l pc pa (ground arith) n, all))

  latest_by_date-Latest :
      (rs : List EksPatchRelease) (r l : EksPatchRelease) (b : ℕ)
      → v.parse_date l.release_date ≡ ok b
      → latest_by_date v l rs ≡ ok r
      → Latest r l rs
  unfolding latest_by_date
  latest_by_date-Latest [] r l b d e =
      let lr : l ≡ r = cc in
      (
        head (sym lr),
        (b, b, (d, subst (λ x. v.parse_date x.release_date ≡ ok b) lr d, omega arith)),
        tt,
      )
  latest_by_date-Latest (x ∷ rs) r l b d e =
      let (a, (pa, e1)) = >>=-ok (v.parse_date l.release_date) _ e in
      let (c, (pc, e2)) = >>=-ok (v.parse_date x.release_date) _ e1 in
      later-Latest l x rs r a c pa pc (latest_by_date-Latest rs r) (ltb a c) refl e2

  -- When a latest release is found among some releases, it is one of them, every one of them has a
  -- date that parses, and none is dated after it.
  pub latest_date_release-NotAfter :
      (rs : List EksPatchRelease) (r : EksPatchRelease)
      → latest_date_release v rs ≡ ok r
      → Memᴰ r rs × All (NotAfter v r) rs
  unfolding latest_date_release latest_by_date
  latest_date_release-NotAfter [] r e = cc
  latest_date_release-NotAfter (x ∷ rs) r e =
      let (a, (pa, _)) = >>=-ok (v.parse_date x.release_date) _ e in
      let (m, n, all) = latest_by_date-Latest (x ∷ rs) r x a pa e in (drop_first m, all)
    where
      drop_first : Memᴰ r (x ∷ x ∷ rs) → Memᴰ r (x ∷ rs)
      drop_first (head e) = head e
      drop_first (tail m) = m

  pub choose-Memᴰ :
      (patch : Option String) (rs : List EksPatchRelease) (r : EksPatchRelease)
      → choose v patch rs ≡ ok r
      → Memᴰ r rs
  choose-Memᴰ (some p) [] r e = cc
  choose-Memᴰ none [] r e = cc
  choose-Memᴰ patch (x ∷ []) r e = head (cc)
  choose-Memᴰ patch (x ∷ y ∷ rs) r e = (latest_date_release-NotAfter (x ∷ y ∷ rs) r e).0

-- a release of the supported releases for `mm`, with the patch that is asked of that one
abbrev pub Offered : String → Option String → List SupportedEksRelease → EksPatchRelease → Type 0
Offered mm patch ss r =
    (s : SupportedEksRelease) × (Memᴰ s ss
      × s.major_minor_version ≡ mm
      × Memᴰ r s.patch_releases
      × r.patch_version ≡ wanted_patch patch s)

patches_at-Memᴰ :
    (patch : String) (rs : List EksPatchRelease) (r : EksPatchRelease)
    → Memᴰ r (patches_at patch rs)
    → Memᴰ r rs × r.patch_version ≡ patch
unfolding patches_at
patches_at-Memᴰ patch [] r m = elim m [ ]
patches_at-Memᴰ patch (x ∷ rs) r m =
    kept (patches_at-Memᴰ patch rs r) (str_eq x.patch_version patch) refl m
  where
    kept :
        (Memᴰ r (patches_at patch rs) → Memᴰ r rs × r.patch_version ≡ patch)
        → (b : Bool) → str_eq x.patch_version patch ≡ b
        → Memᴰ r (if b then x ∷ patches_at patch rs else patches_at patch rs)
        → Memᴰ r (x ∷ rs) × r.patch_version ≡ patch
    kept ih true e (head h) = (head h, ap (λ z. z.patch_version) h ∙ (str_eq_iff _ _).0 e)
    kept ih true e (tail m) = let (m', p) = ih m in (tail m', p)
    kept ih false e m = let (m', p) = ih m in (tail m', p)

Offered-tail :
    {mm : String} (patch : Option String) (s : SupportedEksRelease) {ss : List SupportedEksRelease}
    {r : EksPatchRelease}
    → Offered mm patch ss r
    → Offered mm patch (s ∷ ss) r
Offered-tail patch s (s', (i, e, m, p)) = (s', (tail i, e, m, p))

pub matched_releases-Offered :
    (mm : String) (patch : Option String) (ss : List SupportedEksRelease) (r : EksPatchRelease)
    → Memᴰ r (matched_releases mm patch ss)
    → Offered mm patch ss r
unfolding matched_releases
matched_releases-Offered mm patch [] r m = elim m [ ]
matched_releases-Offered mm patch (s ∷ ss) r m =
    kept (λ i. Offered-tail patch s (matched_releases-Offered mm patch ss r i))
      (str_eq s.major_minor_version mm) refl m
  where
    either :
        (Memᴰ r (matched_releases mm patch ss) → Offered mm patch (s ∷ ss) r)
        → str_eq s.major_minor_version mm ≡ true
        → (Memᴰ r (patches_at (wanted_patch patch s) s.patch_releases)
            ⊎ Memᴰ r (matched_releases mm patch ss))
        → Offered mm patch (s ∷ ss) r
    either ih e (inl i) =
        let (m, p) = patches_at-Memᴰ _ s.patch_releases r i in
        (s, (head refl, (str_eq_iff _ _).0 e, m, p))
    either ih e (inr i) = ih i

    kept :
        (Memᴰ r (matched_releases mm patch ss) → Offered mm patch (s ∷ ss) r)
        → (b : Bool) → str_eq s.major_minor_version mm ≡ b
        → Memᴰ r (
            if b
            then patches_at (wanted_patch patch s) s.patch_releases ++ matched_releases mm patch ss
            else matched_releases mm patch ss)
        → Offered mm patch (s ∷ ss) r
    kept ih true e m = either ih e (append_cases _ m)
    kept ih false e m = ih m
