-- ===== src/Tss/Assembly.antt =====
-- What a request for signatures holds.
pub mod Fields
use irestore.Prelude.{
  ℕ, zero, suc, ◌+◌, ◌-◌, ◌*◌, ◌/◌, ◌%◌, ◌^◌, ◌<◌, ◌≡◌, ◌≢◌, refl, sym, ◌∙◌, ap, arith, inl, inr,
  Bool, true, false, List, [], ◌∷◌, ◌++◌, Option, none, some, append_assoc, append-nil, ◌==◌, ltb,
  ne→==, if◌then◌else◌, Bool-cases, Option-cases,
}
use irestore.Text.{codes}
use irestore.Plists.{Plists, Kind, string, dict, bytes, same_kind, of_kind, typed_item}
use irestore.Tss.Request.{
  ◌>>=◌, decimal_loop, decimal, scan_hex, manifest_loop, request_head, create_request,
}

-- the number that a text of decimal digits stands for, behind a number read so far
unfoldable pub read_decimal : ℕ → List ℕ → ℕ
read_decimal n [] = n
read_decimal n (c ∷ cs) = read_decimal (n * 10 + (c - 48)) cs

abbrev power_of_ten : ℕ → ℕ
power_of_ten zero = 1
power_of_ten (suc k) = 10 * power_of_ten k

decimal_loop-read :
    (fuel n : ℕ) (out : List ℕ)
    → n < power_of_ten fuel
    → read_decimal 0 (decimal_loop fuel n out) ≡ read_decimal n out
unfolding decimal_loop read_decimal
decimal_loop-read zero n out h = ap (λ (k : ℕ). read_decimal k out) (omega arith)
decimal_loop-read (suc fuel) n out h = elim (Bool-cases (ltb n 10)) [
  | inl last ↦ rw last (ap (λ (k : ℕ). read_decimal k out) (omega arith))
  | inr more ↦ rw more (
      decimal_loop-read fuel (n / 10) ((n % 10 + 48) ∷ out) (omega arith)
      ∙ ap (λ (k : ℕ). read_decimal k out) (omega arith))
]

-- The text that `ApECID` holds stands for the ECID, for every ECID of 64 bits.
pub read_decimal-decimal : (n : ℕ) → n < 2 ^ 64 → read_decimal 0 (decimal n) ≡ n
unfolding decimal read_decimal
read_decimal-decimal n h = decimal_loop-read 20 n [] (omega arith)

-- Inversion of a chain of lookups.
>>=-some :
    {A B : Type 0} (o : Option A) (f : A → Option B) {b : B}
    → (o >>= f) ≡ some b
    → (a : A) × (o ≡ some a) × (f a ≡ some b)
>>=-some none f h = cc
>>=-some (some a) f h = (a, refl, h)

else_branch :
    {B : Type 0} (t : Bool) (o : Option B) {b : B}
    → (if t then none else o) ≡ some b
    → (t ≡ false) × (o ≡ some b)
else_branch true o h = cc
else_branch false o h = (refl, h)

module _ (lib : Plists) where
  open lib use {Node, entries, string_val, data_val, new_dict}

  -- Every entry is a dictionary.
  abbrev pub AllDicts : List (List ℕ × Node) → Type 0
  AllDicts [] = Unit {0}
  AllDicts ((name, node) ∷ es) = (of_kind lib dict (some node) ≡ some node) × AllDicts es

  of_kind-same :
      (node entry : Node) (k : Kind) → of_kind lib k (some node) ≡ some entry → node ≡ entry
  unfolding of_kind
  of_kind-same node entry k h = elim (Bool-cases (same_kind (lib.kind node) k)) [
    | inl match ↦ let h' = rw (match, of_kind) at h in cc
    | inr other ↦ let h' = rw (other, of_kind) at h in cc
  ]

  manifest_loop-append :
      (es request : List (List ℕ × Node))
      → AllDicts es
      → manifest_loop lib request es ≡ some (request ++ es)
  unfolding manifest_loop
  manifest_loop-append [] request all = ap some (sym (append-nil request))
  manifest_loop-append ((name, node) ∷ es) request (is, all) =
      rw (is, manifest_loop)
        (manifest_loop-append es (request ++ (name, node) ∷ []) all
          ∙ ap some (append_assoc request ((name, node) ∷ []) es))

  manifest_loop-AllDicts :
      (es request r : List (List ℕ × Node)) → manifest_loop lib request es ≡ some r → AllDicts es
  unfolding manifest_loop
  manifest_loop-AllDicts [] request r h = tt
  manifest_loop-AllDicts ((name, node) ∷ es) request r h =
      elim (Option-cases (of_kind lib dict (some node))) [
        | inl e ↦ absurd (none_some (rw (e, manifest_loop) at h))
        | inr (entry, e) ↦
            let same = of_kind-same node entry dict e in
            (
              e ∙ ap some (sym same),
              manifest_loop-AllDicts es (request ++ (name, entry) ∷ []) r
                  (rw (e, manifest_loop) at h),
            )
      ]
    where
      none_some : ◌≡◌ {A = Option (List (List ℕ × Node))} none (some r) → ⊥
      none_some x = cc

  -- A build identity with all that a request needs.
  pub record IsIdentity (identity : Node) : Type 0 where
    pub build : Node
    pub chip : Node
    pub board : Node
    pub domain : Node
    pub manifest : Node
    pub has_build : typed_item lib identity (codes "UniqueBuildID") bytes ≡ some build
    pub has_chip : typed_item lib identity (codes "ApChipID") string ≡ some chip
    pub has_board : typed_item lib identity (codes "ApBoardID") string ≡ some board
    pub has_domain : typed_item lib identity (codes "ApSecurityDomain") string ≡ some domain
    pub has_manifest : typed_item lib identity (codes "Manifest") dict ≡ some manifest
    pub all_dicts : AllDicts (entries manifest)

  -- the request for an identity and an ECID
  abbrev pub request_of : (identity : Node) → IsIdentity identity → ℕ → Node
  request_of identity is ecid = new_dict (
      request_head lib (data_val is.build) (scan_hex (string_val is.chip))
        (scan_hex (string_val is.board)) (scan_hex (string_val is.domain)) ecid
      ++ entries is.manifest)

  -- For an identity with all that it needs and an ECID that is not 0, `tss_create_request` returns
  -- the fixed entries and then all entries of the manifest, in order.
  pub create_request-request_of :
      (identity : Node) (ecid : ℕ) (is : IsIdentity identity)
      → ecid ≢ 0
      → create_request lib identity ecid ≡ some (request_of identity is ecid)
  unfolding create_request
  create_request-request_of identity ecid is nonzero =
      rw
        (
          is.has_build,
          is.has_chip,
          is.has_board,
          is.has_domain,
          ne→== ecid 0 nonzero,
          is.has_manifest,
        )
        (rw (
          manifest_loop-append (entries is.manifest)
            (request_head lib (data_val is.build) (scan_hex (string_val is.chip))
              (scan_hex (string_val is.board)) (scan_hex (string_val is.domain)) ecid)
            is.all_dicts))

  -- `tss_create_request` returns a request only for an identity with a build, a chip, a board, a security
  -- domain and a manifest, each of its kind, the entries of the manifest being dictionaries, and only
  -- for an ECID that is not 0.
  pub create_request-IsIdentity :
      (identity r : Node) (ecid : ℕ)
      → create_request lib identity ecid ≡ some r
      → IsIdentity identity × (ecid ≢ 0)
  unfolding create_request
  create_request-IsIdentity identity r ecid h =
      let (build, e₁, h₁) = >>=-some _ _ h in
      let (chip, e₂, h₂) = >>=-some _ _ h₁ in
      let (board, e₃, h₃) = >>=-some _ _ h₂ in
      let (domain, e₄, h₄) = >>=-some _ _ h₃ in
      let (nonzero, h₅) = else_branch (ecid == 0) _ h₄ in
      let (manifest, e₆, h₆) = >>=-some _ _ h₅ in
      let (request, e₇, h₇) = >>=-some _ _ h₆ in
      (
        record {
          build = build;
          chip = chip;
          board = board;
          domain = domain;
          manifest = manifest;
          has_build = e₁;
          has_chip = e₂;
          has_board = e₃;
          has_domain = e₄;
          has_manifest = e₆;
          all_dicts = manifest_loop-AllDicts (entries manifest) _ request e₇;
        },
        ground arith,
      )
