-- ===== src/Img3/Signature/Replace.antt =====
-- What `img3_replace_signature` does to an image and to memory.
use irestore.Prelude.{
  ℕ, ◌+◌, ◌-◌, ◌≡◌, ◌≢◌, refl, sym, ◌∙◌, arith, inl, inr, true, false, not, Bool, List, ◌++◌,
  Option, none, some, ap, length, drop, drop-append, take-drop, drop_sum, eq→==, ne→==, ◌==◌,
  Option-cases,
}
use irestore.Memory.{Mem, ok, Ensures, ends, bind, branch, free, grown, Plenty, demand-Ensures}
use irestore.Words.{word, word-append}
use irestore.Img3.{Slot, ecid_slot, shsh_slot, cert_slot, signature_of, Element, Image}
use irestore.Img3.Whole.{IsElement, parse_element-bytes}
use irestore.Img3.Parse.{free_element}
use irestore.Img3.Parse.Sound.{IsAt, parse_element-IsAt}
use irestore.Img3.Signature.{take_element, replace_slot, replace_signature}

take_element-bytes :
    (s : Slot) (e : Element) (rest : List ℕ) (m : Mem)
    → IsElement s e
    → Plenty m
    → take_element s (e.bytes ++ rest) m ≡ ok (some (e, rest)) (grown 2 m)
unfolding take_element
take_element-bytes s e rest m is plenty = rw (
  parse_element-bytes s e rest m is plenty,
  eq→== e.type (signature_of s) (is.kind),
  is.sized,
  drop-append e.bytes rest,
)

-- An element of another type is refused, and its two blocks stay allocated.
take_element_wrong :
    (s t : Slot) (e : Element) (rest : List ℕ) (m : Mem)
    → IsElement t e
    → signature_of t ≢ signature_of s
    → Plenty m
    → take_element s (e.bytes ++ rest) m ≡ ok none (grown 2 m)
unfolding take_element
take_element_wrong s t e rest m is other plenty = rw (
  parse_element-bytes t e rest m is plenty,
  ne→== e.type (signature_of s) (λ same. other (sym (is.kind) ∙ same)),
)

abbrev pub blocks : Option Element → ℕ
blocks none = 0
blocks (some _) = 2

abbrev pub released : ℕ → Mem → Mem
released n m = record m { live = m.live - n }

pub free_element-released :
    (e : Option Element) (m : Mem) → free_element e m ≡ ok tt (released (blocks e) m)
unfolding free_element free
free_element-released none m = ground arith
free_element-released (some x) m = ground arith

-- the image with a new signature
abbrev pub signed : Element → Element → Element → Image → Image
signed ecid shsh cert i = record i {
  ecid_element = some ecid;
  shsh_element = some shsh;
  cert_element = some cert;
}

-- the blocks of the signature that an image has
abbrev pub signature_blocks : Image → ℕ
signature_blocks i = blocks i.ecid_element + blocks i.shsh_element + blocks i.cert_element

-- `img3_replace_signature` on an ECID, an SHSH and a CERT element, one behind the other, with
-- anything behind them, and plenty of memory: it succeeds, puts the three in the image, changes
-- nothing else of it, allocates their six blocks and releases those of the old signature.
pub replace_signature-signed :
    (i : Image) (ecid shsh cert : Element) (rest : List ℕ) (m : Mem)
    → IsElement ecid_slot ecid
    → IsElement shsh_slot shsh
    → IsElement cert_slot cert
    → Plenty m
    → replace_signature i (ecid.bytes ++ (shsh.bytes ++ (cert.bytes ++ rest))) m
      ≡ ok (true, signed ecid shsh cert i) (released (signature_blocks i) (grown 6 m))
unfolding replace_signature replace_slot
replace_signature-signed i ecid shsh cert rest m is_ecid is_shsh is_cert plenty =
    rw
      (
        take_element-bytes ecid_slot ecid (shsh.bytes ++ (cert.bytes ++ rest)) m is_ecid plenty,
        take_element-bytes shsh_slot shsh (cert.bytes ++ rest) (grown 2 m) is_shsh plenty,
        take_element-bytes cert_slot cert rest (grown 2 (grown 2 m)) is_cert plenty,
        free_element-released,
        free_element-released,
        free_element-released,
      )
      (ground arith)

-- Where the third element of the signature has another type than CERT, `img3_replace_signature`
-- fails and leaves the image as it was, and the six blocks of the three elements stay allocated.
pub replace_signature-leak :
    (i : Image) (ecid shsh x : Element) (t : Slot) (rest : List ℕ) (m : Mem)
    → IsElement ecid_slot ecid
    → IsElement shsh_slot shsh
    → IsElement t x
    → signature_of t ≢ signature_of cert_slot
    → Plenty m
    → replace_signature i (ecid.bytes ++ (shsh.bytes ++ (x.bytes ++ rest))) m
      ≡ ok (false, i) (grown 6 m)
unfolding replace_signature
replace_signature-leak i ecid shsh x t rest m is_ecid is_shsh is_x other plenty =
    rw
      (
        take_element-bytes ecid_slot ecid (shsh.bytes ++ (x.bytes ++ rest)) m is_ecid plenty,
        take_element-bytes shsh_slot shsh (x.bytes ++ rest) (grown 2 m) is_shsh plenty,
        take_element_wrong cert_slot t x rest (grown 2 (grown 2 m)) is_x other plenty,
      )
      (ground arith)

-- What `take_element` finds at an offset of the signature, and what is left behind it.
record IsTaken (s : Slot) (buffer : List ℕ) (offset : ℕ) (e : Element) (rest : List ℕ)
    : Type 0 where
  found : IsAt buffer offset e
  kind : e.type ≡ signature_of s
  left : rest ≡ drop (offset + length e.bytes) buffer

-- The size that the copy of an element gives is its own.
own_size :
    (buffer : List ℕ) (offset n : ℕ) (e : Element)
    → IsAt buffer offset e
    → word 4 e.bytes ≡ some n
    → drop n (drop offset buffer) ≡ drop (offset + length e.bytes) buffer
own_size buffer offset n e found size =
    let x = drop offset buffer in
    let whole : e.bytes ++ drop (length e.bytes) x ≡ x =
      ap (λ t. t ++ drop (length e.bytes) x) found.copied ∙ take-drop (length e.bytes) x in
    let again : word 4 x ≡ some n =
      ap (word 4) (sym whole) ∙ word-append 4 e.bytes (drop (length e.bytes) x) size in
    let same : n ≡ length e.bytes = cc (found.sized) in
    drop_sum offset n (offset + length e.bytes) buffer (ap (λ (k : ℕ). offset + k) (sym same))

take_element-IsTaken :
    (s : Slot) (buffer : List ℕ) (offset : ℕ) (m : Mem)
    → Ensures
        (λ r _. (e : Element) (rest : List ℕ) → r ≡ some (e, rest) → IsTaken s buffer offset e rest)
        (take_element s (drop offset buffer) m)
unfolding take_element
take_element-IsTaken s buffer offset m = bind (parse_element-IsAt buffer offset m) λ r m₁ parsed.
    elim (Option-cases r) [
      | inl failed ↦ rw failed (ends λ e rest h. cc)
      | inr (e, got) ↦ rw got (
          branch (not (e.type == signature_of s)) _ _ m₁ (λ _. ends λ e' rest h. cc)
            λ same.
              let kind : e.type ≡ signature_of s = ground arith in
              bind (demand-Ensures (word 4 e.bytes) m₁) λ n m₂ sized. ends λ e' rest h.
                let same_e : e ≡ e' = cc in
                let same_rest : drop n (drop offset buffer) ≡ rest = cc in
                rw (← same_e) (record {
                  found = parsed e got;
                  kind = kind;
                  left = sym same_rest ∙ own_size buffer offset n e (parsed e got) sized;
                }))
    ]

-- The three elements stand one behind the other at the front of the signature.
pub record IsSignature (signature : List ℕ) (ecid shsh cert : Element) : Type 0 where
  pub has_ecid : IsAt signature 0 ecid
  pub has_shsh : IsAt signature (length ecid.bytes) shsh
  pub has_cert : IsAt signature (length ecid.bytes + length shsh.bytes) cert
  pub is_ecid : ecid.type ≡ signature_of ecid_slot
  pub is_shsh : shsh.type ≡ signature_of shsh_slot
  pub is_cert : cert.type ≡ signature_of cert_slot

-- The two outcomes of `img3_replace_signature`.
pub record Outcome (signature : List ℕ) (i : Image) (r : Bool × Image) : Type 0 where
  pub refused : r.0 ≡ false → r.1 ≡ i
  pub replaced :
      r.0 ≡ true
      → (ecid shsh cert : Element) × (r.1 ≡ signed ecid shsh cert i)
        × IsSignature signature ecid shsh cert

refuse :
    (signature : List ℕ) (i : Image) (m : Mem)
    → Ensures (λ r _. Outcome signature i r) (ok (false, i) m)
refuse signature i m = ends (record { refused = λ _. refl; replaced = λ h. cc })

free_element-ends : (e : Option Element) (m : Mem) → Ensures (λ _ _. Unit {0}) (free_element e m)
free_element-ends e m = rw (free_element-released e m) (ends tt)

behind-IsTaken :
    (s : Slot) (buffer : List ℕ) (offset : ℕ) (rest : List ℕ) (m : Mem)
    → rest ≡ drop offset buffer
    → Ensures
        (λ r _.
          (e : Element) (rest' : List ℕ) → r ≡ some (e, rest') → IsTaken s buffer offset e rest')
        (take_element s rest m)
behind-IsTaken s buffer offset rest m e = rw e (take_element-IsTaken s buffer offset m)

-- On any signature, image and supply of memory, unless it reads outside a buffer,
-- `img3_replace_signature` either fails and leaves the image as it was, or succeeds and puts the
-- ECID, the SHSH and the CERT element into it that stand one behind the other at the front of the
-- signature, and changes nothing else.
pub replace_signature-Outcome :
    (i : Image) (signature : List ℕ) (m : Mem)
    → Ensures (λ r _. Outcome signature i r) (replace_signature i signature m)
unfolding replace_signature replace_slot
replace_signature-Outcome i signature m =
    bind (take_element-IsTaken ecid_slot signature 0 m) λ r₁ m₁ first. elim (Option-cases r₁) [
      | inl e ↦ rw e (refuse signature i m₁)
      | inr ((ecid, rest₁), got₁) ↦
          let one = first ecid rest₁ got₁ in
          rw got₁ (
            bind
              (behind-IsTaken shsh_slot signature (length ecid.bytes) rest₁ m₁
                (one.left ∙ ap (λ (k : ℕ). drop k signature) (omega arith)))
              λ r₂ m₂ second. elim (Option-cases r₂) [
                | inl e ↦ rw e (refuse signature i m₂)
                | inr ((shsh, rest₂), got₂) ↦
                    let two = second shsh rest₂ got₂ in
                    rw got₂ (
                      bind
                        (behind-IsTaken cert_slot signature (length ecid.bytes + length shsh.bytes)
                          rest₂ m₂ (two.left))
                        λ r₃ m₃ third. elim (Option-cases r₃) [
                          | inl e ↦ rw e (refuse signature i m₃)
                          | inr ((cert, rest₃), got₃) ↦
                              let three = third cert rest₃ got₃ in
                              rw
                                (
                                  got₃, free_element-released, free_element-released,
                                  free_element-released,
                                )
                                (ends (record {
                                  refused = λ h. cc;
                                  replaced = λ _. (
                                    ecid,
                                    shsh,
                                    cert,
                                    refl,
                                    record {
                                      has_ecid = one.found;
                                      has_shsh = two.found;
                                      has_cert = three.found;
                                      is_ecid = one.kind;
                                      is_shsh = two.kind;
                                      is_cert = three.kind;
                                    },
                                  );
                                }))
                        ])
              ])
    ]
