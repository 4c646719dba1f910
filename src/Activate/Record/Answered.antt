-- ===== src/Activate/Record/Answered.antt =====
-- The answer of the server, received in pieces, and its ticket.
use irestore.Prelude.{
  ℕ, suc, ◌+◌, ◌≡◌, ◌≢◌, ◌∙◌, ap, refl, sym, arith, List, [], ◌∷◌, ◌++◌, append-nil, append_assoc,
  take, length, length-append, length_zero, take-append, ne→==,
}
use irestore.Effects.{ok}
use irestore.Memory.{Mem, Plenty, malloc-grown, grown}
use irestore.Text.{codes}
use irestore.Plists.{Plists}
use irestore.Tss.Transfer.{NoZero, concat, c_string-text}
use irestore.Activate.Bench.{Bench, malloc_used}
use irestore.Activate.Cache.{Cache}
use irestore.Activate.Record.{
  Form, Response, write_callback, receive_all, part, part_of, copy_part, Service, read_ticket,
  read_answer, transfer,
}

pub malloc_used-Plenty :
    (b : Bench) → Plenty b.memory → malloc_used b ≡ ok tt (record b { memory = grown 1 b.memory })
unfolding malloc_used
malloc_used-Plenty b plenty = rw (malloc-grown b.memory plenty) refl

-- The response holds this text.
record Holds (text : List ℕ) (r : Response) : Type 0 where
  count : r.length ≡ length text
  front : take r.length r.content ≡ text
  ended : text ≢ [] → r.content ≡ text ++ 0 ∷ []

write_callback-Holds :
    (text piece : List ℕ) (r : Response) (b : Bench)
    → Plenty b.memory
    → Holds text r
    → (t : Response) × (m : Mem) × (write_callback piece r b ≡ ok t (record b { memory = m }))
      × Plenty m
      × Holds (text ++ piece) t
unfolding write_callback
write_callback-Holds text [] r b plenty has = (
  r,
  b.memory,
  refl,
  plenty,
  record {
    count = has.count ∙ ap length (sym (append-nil text));
    front = has.front ∙ sym (append-nil text);
    ended = λ filled.
        has.ended (λ e. filled (append-nil text ∙ e))
        ∙ ap (λ s. s ++ 0 ∷ []) (sym (append-nil text));
  },
)
write_callback-Holds text (x ∷ piece) r b plenty has = (
  record {
    length = r.length + length (x ∷ piece);
    content = take r.length r.content ++ (x ∷ piece ++ 0 ∷ []);
  },
  grown 1 b.memory,
  rw (ne→== (suc (length piece)) 0 (λ e. omega arith)) (rw (malloc_used-Plenty b plenty) refl),
  plenty,
  record {
    count = longer;
    front =
        ap (λ (n : ℕ). take n (take r.length r.content ++ (x ∷ piece ++ 0 ∷ []))) longer
        ∙ ap (λ s. take (length (text ++ x ∷ piece)) s) whole
        ∙ take-append (text ++ x ∷ piece) (0 ∷ []);
    ended = λ filled. whole;
  },
)
  where
    longer : r.length + length (x ∷ piece) ≡ length (text ++ x ∷ piece)
    longer = omega (arith, has.count, length-append text (x ∷ piece))

    whole : take r.length r.content ++ (x ∷ piece ++ 0 ∷ []) ≡ (text ++ x ∷ piece) ++ 0 ∷ []
    whole =
        ap (λ s. s ++ (x ∷ piece ++ 0 ∷ [])) has.front
        ∙ sym (append_assoc text (x ∷ piece) (0 ∷ []))

receive_all-Holds :
    (pieces : List (List ℕ)) (text : List ℕ) (r : Response) (b : Bench)
    → Plenty b.memory
    → Holds text r
    → (t : Response) × (m : Mem) × (receive_all pieces r b ≡ ok t (record b { memory = m }))
      × Plenty m
      × Holds (text ++ concat pieces) t
unfolding receive_all
receive_all-Holds [] text r b plenty has = (
  r,
  b.memory,
  refl,
  plenty,
  record {
    count = has.count ∙ ap length (sym (append-nil text));
    front = has.front ∙ sym (append-nil text);
    ended = λ filled.
        has.ended (λ e. filled (append-nil text ∙ e))
        ∙ ap (λ s. s ++ 0 ∷ []) (sym (append-nil text));
  },
)
receive_all-Holds (piece ∷ pieces) text r b plenty has =
    let (t, m, e, plenty', has') = write_callback-Holds text piece r b plenty has in
    let (u, m', e', plenty'', has'') =
      receive_all-Holds pieces (text ++ piece) t (record b { memory = m }) plenty' has' in
    (u, m', rw e e', plenty'', again u has'')
  where
    again :
        (u : Response)
        → Holds ((text ++ piece) ++ concat pieces) u
        → Holds (text ++ concat (piece ∷ pieces)) u
    again u has = rw⁻¹ (append_assoc text piece (concat pieces)) has

module _ (lib : Plists) (service : Service lib.Node) (c : Cache) where
  open lib use {Node, string_val, to_xml}

  read_answer-ticket :
      (r : Response) (text ticket : List ℕ) (b : Bench)
      → Plenty b.memory
      → Holds text r
      → text ≢ []
      → NoZero text
      → part_of (codes "<plist") (codes "</plist>") text ≡ part ticket
      → read_answer lib service c r b
        ≡ ok (read_ticket lib service c ticket) (record b { memory = grown 1 b.memory })
  unfolding read_answer copy_part
  read_answer-ticket r text ticket b plenty holds filled plain has =
      rw
        (
          ne→== r.length 0 (λ e. filled (length_zero text (sym holds.count ∙ e))),
          holds.ended filled,
          c_string-text text [] plain,
          has,
        )
        (rw (copy_part, malloc_used-Plenty b plenty) refl)

  -- A server that answers with a text that has a ticket.
  pub transfer-ticket :
      (form : Form) (text ticket : List ℕ) (b : Bench)
      → Plenty b.memory
      → concat (service.answer form) ≡ text
      → text ≢ []
      → NoZero text
      → part_of (codes "<plist") (codes "</plist>") text ≡ part ticket
      → (m : Mem) × (transfer lib service c form b
          ≡ ok (read_ticket lib service c ticket) (record b { memory = m }))
  unfolding transfer
  transfer-ticket form text ticket b plenty answered filled plain has =
      let b₁ = record b { memory = grown 1 (grown 1 b.memory) } in
      let (r, m, e, plenty', holds) =
        receive_all-Holds (service.answer form) [] (record { length = 0; content = [] }) b₁ plenty
          (record { count = refl; front = refl; ended = λ h. absurd (h refl) }) in
      (
        grown 1 m,
        rw (malloc-grown b.memory plenty) (
            rw (malloc-grown (grown 1 b.memory) plenty) (
              rw e (
                read_answer-ticket r text ticket (record b₁ { memory = m }) plenty'
                  (rw answered at holds) filled plain has))),
      )
