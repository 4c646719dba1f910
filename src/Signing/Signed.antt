-- ===== src/Signing/Signed.antt =====
-- What `ipsw_get_component_by_path` returns where the archive holds an image and the response a
-- signature.
use irestore.Prelude.{
  ℕ, ◌+◌, ◌-◌, ◌*◌, ◌<◌, ◌≡◌, refl, sym, ap, ◌∙◌, arith, inl, inr, List, [], ◌∷◌, ◌++◌, some,
  length, Option-cases,
}
use irestore.Memory.{Mem, ok, grown, Plenty, free}
use irestore.Plists.{Plists}
use irestore.Ipsw.{Zip}
use irestore.Ipsw.Extract.{HoldsBytes, extract_to_memory-HoldsBytes}
use irestore.Tss.Blob.{get_blob_by_path}
use irestore.Img3.{
  Slot, type_slot, ecid_slot, shsh_slot, cert_slot, Header, Element, Image, get_slot, slot_order,
}
use irestore.Img3.Whole.{IsElement, AllElements, count}
use irestore.Img3.Build.Output.{body, IsWhole, get_data-file_bytes, total_size, file_bytes}
use irestore.Img3.RoundTrip.{IsReadable, written_header, parse_file-file_bytes, length-file_bytes}
use irestore.Img3.Release.{free_image-released}
use irestore.Img3.Signature.Replace.{
  signed, blocks, released, signature_blocks, replace_signature-signed,
}
use irestore.Signing.{blob_block, rebuild, sign_with, sign, get_component_by_path}

-- the blocks of the elements in some fields
abbrev blocks_sum : List Slot → Image → ℕ
blocks_sum [] i = 0
blocks_sum (s ∷ ss) i = blocks (get_slot s i) + blocks_sum ss i

count-blocks_sum : (ss : List Slot) (i : Image) → 2 * count ss i ≡ blocks_sum ss i
unfolding count
count-blocks_sum [] i = refl
count-blocks_sum (s ∷ ss) i = elim (Option-cases (get_slot s i)) [
  | inl e ↦ rw (e, count) (omega (arith, count-blocks_sum ss i))
  | inr (x, e) ↦ rw (e, count) (omega (arith, count-blocks_sum ss i))
]

-- A new signature takes six blocks in place of those of the old one.
blocks_sum-signed :
    (ecid shsh cert : Element) (i : Image)
    → 2 * count slot_order (signed ecid shsh cert i) + signature_blocks i
      ≡ 2 * count slot_order i + 6
blocks_sum-signed ecid shsh cert i =
    omega
      (arith, count-blocks_sum slot_order (signed ecid shsh cert i), count-blocks_sum slot_order i)

-- The fields of a newly signed image hold whole elements.
signed-AllElements :
    (ecid shsh cert : Element) (i : Image)
    → IsElement ecid_slot ecid
    → IsElement shsh_slot shsh
    → IsElement cert_slot cert
    → AllElements i
    → AllElements (signed ecid shsh cert i)
signed-AllElements ecid shsh cert i is_ecid is_shsh is_cert all ecid_slot e h =
    let same : ecid ≡ e = cc in rw same at is_ecid
signed-AllElements ecid shsh cert i is_ecid is_shsh is_cert all shsh_slot e h =
    let same : shsh ≡ e = cc in rw same at is_shsh
signed-AllElements ecid shsh cert i is_ecid is_shsh is_cert all cert_slot e h =
    let same : cert ≡ e = cc in rw same at is_cert
signed-AllElements ecid shsh cert i is_ecid is_shsh is_cert all s e h = all s e h

rebuild-file_bytes :
    (junk : ℕ) (i : Image) (h : Header) (m : Mem)
    → IsWhole i h
    → Plenty m
    → rebuild junk i m
      ≡ ok
          (some (file_bytes junk i h, total_size i))
          (released (2 + 2 * count slot_order i) (grown 1 m))
unfolding rebuild
rebuild-file_bytes junk i h m w plenty =
    rw
      (
        get_data-file_bytes junk i h m w,
        plenty m.calls,
        free_image-released i h (grown 1 m) w.has_header,
      )
      refl

-- An image as it is read back from its file.
abbrev read : ℕ → Image → Header → Image
read junk i h = record i { header = some (written_header junk i h) }

read-AllElements : (junk : ℕ) (i : Image) (h : Header) → AllElements i → AllElements (read junk i h)
read-AllElements junk i h all type_slot e is = all type_slot e is
read-AllElements junk i h all s e is = all s e is

count-read :
    (junk : ℕ) (i : Image) (h : Header)
    → 2 * count slot_order (read junk i h) ≡ 2 * count slot_order i
count-read junk i h =
    count-blocks_sum slot_order (read junk i h) ∙ sym (count-blocks_sum slot_order i)

-- The blocks of the file, the image, its elements and the blob come and go; the new file stays.
balance :
    (m : Mem) (c c' old : ℕ)
    → 2 * c' + old ≡ 2 * c + 6
    → record m {
      calls = m.calls + 2 + (2 + 2 * c) + 6 + 1;
      live = m.live + 1 + (2 + 2 * c) - 1 + 1 + 6 - old - 1 + 1 - (2 + 2 * c');
    }
      ≡ record m { calls = m.calls + (11 + 2 * c); live = m.live + 1 }
balance m c c' old kept = ground arith

-- the image that is sent
abbrev pub personalized : ℕ → Image → Header → Element → Element → Element → Image
personalized junk i h ecid shsh cert = signed ecid shsh cert (read junk i h)

module _ (zip : Zip) (lib : Plists) where
  open lib use {Node}

  -- What is there for a component: its file is that of a readable image, and the response has for
  -- its path an ECID, an SHSH and a CERT element, with which the image stays below 2^31 bytes.
  pub record IsSignable (ipsw path : List ℕ) (tss : Node) (junk : ℕ) (i : Image) (h : Header)
      (ecid shsh cert : Element) (rest : List ℕ) : Type 0 where
    pub readable : IsReadable i h junk
    pub holds : HoldsBytes zip ipsw path (file_bytes junk i h)
    pub has_blob :
        get_blob_by_path lib tss path ≡ some (ecid.bytes ++ (shsh.bytes ++ (cert.bytes ++ rest)))
    pub is_ecid : IsElement ecid_slot ecid
    pub is_shsh : IsElement shsh_slot shsh
    pub is_cert : IsElement cert_slot cert
    pub fits : 20 + length (body slot_order (personalized junk i h ecid shsh cert)) < 2147483648

  personalized-IsWhole :
      (ipsw path : List ℕ) (tss : Node) (junk : ℕ) (i : Image) (h : Header)
      (ecid shsh cert : Element) (rest : List ℕ)
      → IsSignable ipsw path tss junk i h ecid shsh cert rest
      → IsWhole (personalized junk i h ecid shsh cert) (written_header junk i h)
  personalized-IsWhole ipsw path tss junk i h ecid shsh cert rest is = record {
    has_header = refl;
    elements =
        signed-AllElements ecid shsh cert (read junk i h) is.is_ecid is.is_shsh is.is_cert
          (read-AllElements junk i h is.readable.whole.elements);
    fits = is.fits;
  }

  -- `ipsw_get_component_by_path` on a component that can be signed, with plenty of memory: it
  -- returns the file of the image whose ECID, SHSH and CERT elements are those of the response and
  -- whose other elements are those of the archive, and one block more is allocated, which holds it.
  pub get_component_by_path-personalized :
      (ipsw path : List ℕ) (tss : Node) (junk junk' : ℕ) (i : Image) (h : Header)
      (ecid shsh cert : Element) (rest : List ℕ) (m : Mem)
      → IsSignable ipsw path tss junk i h ecid shsh cert rest
      → Plenty m
      → get_component_by_path zip lib junk' ipsw (some tss) path m
        ≡ ok
            (some (
              file_bytes junk' (personalized junk i h ecid shsh cert) (written_header junk i h),
              total_size (personalized junk i h ecid shsh cert),
            ))
            (record m { calls = m.calls + (11 + 2 * count slot_order i); live = m.live + 1 })
  unfolding get_component_by_path sign sign_with blob_block free
  get_component_by_path-personalized ipsw path tss junk junk' i h ecid shsh cert rest m is plenty =
      let r = is.readable in
      let new = personalized junk i h ecid shsh cert in
      let kept : 2 * count slot_order new + signature_blocks (read junk i h)
          ≡ 2 * count slot_order i + 6 =
        blocks_sum-signed ecid shsh cert (read junk i h)
        ∙ ap (λ (k : ℕ). k + 6) (count-read junk i h) in
      let m₁ : Mem = record m {
        calls = m.calls + 2 + (2 + 2 * count slot_order i);
        live = m.live + 1 + (2 + 2 * count slot_order i) - 1 + 1;
      } in
      let m₂ : Mem = record m {
        calls = m.calls + 2 + (2 + 2 * count slot_order i) + 6;
        live =
            m.live
            + 1
            + (2 + 2 * count slot_order i)
            - 1
            + 1
            + 6
            - signature_blocks (read junk i h)
            - 1;
      } in
      let size = length-file_bytes junk i h in
      rw
        (
          extract_to_memory-HoldsBytes zip ipsw path (file_bytes junk i h) m is.holds
              (omega (arith, r.whole.fits, size)) plenty,
          size,
          parse_file-file_bytes junk i h (record m { calls = m.calls + 2; live = m.live + 1 }) r
              plenty,
          is.has_blob,
          replace_signature-signed (read junk i h) ecid shsh cert rest m₁ is.is_ecid is.is_shsh
              is.is_cert plenty,
          rebuild-file_bytes junk' new (written_header junk i h) m₂
              (personalized-IsWhole ipsw path tss junk i h ecid shsh cert rest is) plenty,
        )
        (ap (ok (some (file_bytes junk' new (written_header junk i h), total_size new))) (
          balance m (count slot_order i) (count slot_order new) (signature_blocks (read junk i h))
            kept))
