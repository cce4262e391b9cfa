-- ===== src/Watchdog/Fast/Lines.antt =====
-- A line of `next_sse_line`, read byte by byte by the event parser.
use mathlib.Core.Path.{subst}
use mathlib.Core.List.{append-nil, append_assoc}
use llm_guard_proxy.Prelude.{
  ℕ, ◌≤◌, ◌≡◌, refl, sym, ap, ◌∙◌, inl, inr, Bool, true, false, Option, none, some, List, [], ◌∷◌,
  ◌++◌, arith,
}
use llm_guard_proxy.Prelude.Tests.{◌==◌, Bool-cases, Option-cases}
use llm_guard_proxy.Prelude.Words.{u64_max, saturating_add}
use llm_guard_proxy.Guardian.MemInfo.{strip_prefix}
use llm_guard_proxy.Watchdog.Sse.{
  SseEventParser, data_prefix, finish_field, finish_line, set_skip, take_byte, consume_byte,
  consume_from,
}
use llm_guard_proxy.Watchdog.Sse.Chunks.{consume_stop, consume_next}
use llm_guard_proxy.Watchdog.Fast.{SseLine, after_cr, next_sse_line}

abbrev pub at : List ℕ → List ℕ → Bool → Bool → SseEventParser
at line text has_data skip = record {
  line = line;
  event_data = text;
  has_data = has_data;
  skip_lf_after_cr = skip;
}

abbrev pub Parsed : Type 0
Parsed = SseEventParser × ℕ

pub some_injective : (a b : Parsed) → ◌≡◌ {A = Option Parsed} (some a) (some b) → a ≡ b
some_injective a b h = cc

next_sse_line-none :
    (c : ℕ) (rest : List ℕ)
    → next_sse_line (c ∷ rest) ≡ none
    → ((c == 10) ≡ false) × ((c == 13) ≡ false) × (next_sse_line rest ≡ none)
unfolding next_sse_line
next_sse_line-none c rest h = ground (arith, h)

pub line_injective : (a b : SseLine) → ◌≡◌ {A = Option SseLine} (some a) (some b) → a ≡ b
line_injective a b h = cc

pub after_cr-lf :
    (d : ℕ) (input : List ℕ)
    → (d == 10) ≡ true
    → after_cr (d ∷ input) ≡ record { line = []; rest = input; ends_in_cr = false }
after_cr-lf d input h = ground (arith, h)

pub after_cr-other :
    (d : ℕ) (input : List ℕ)
    → (d == 10) ≡ false
    → after_cr (d ∷ input) ≡ record { line = []; rest = d ∷ input; ends_in_cr = true }
after_cr-other d input h = ground (arith, h)

pub next_lf :
    (c : ℕ) (input : List ℕ)
    → (c == 10) ≡ true
    → next_sse_line (c ∷ input) ≡ some (record { line = []; rest = input; ends_in_cr = false })
unfolding next_sse_line
next_lf c input h = ground (arith, h)

pub next_cr :
    (c : ℕ) (input : List ℕ)
    → (c == 10) ≡ false
    → (c == 13) ≡ true
    → next_sse_line (c ∷ input) ≡ some (after_cr input)
unfolding next_sse_line
next_cr c input h k = rw (h, k) refl

pub next_push :
    (c : ℕ) (input : List ℕ) (l : SseLine)
    → (c == 10) ≡ false
    → (c == 13) ≡ false
    → next_sse_line (c ∷ input) ≡ some l
    → (l' : SseLine) × (next_sse_line input ≡ some l') × (record l' { line = c ∷ l'.line } ≡ l)
unfolding next_sse_line
next_push c input l lf cr h = elim (Option-cases (next_sse_line input)) [
  | inl e ↦ absurd (ground (arith, e, h, lf, cr))
  | inr (l', e) ↦ (l', e, ground (arith, e, h, lf, cr))
]

module _ (judge : List ℕ → Bool) (text : List ℕ) (has_data : Bool) where
  -- A byte that ends no line is pushed.
  push_step :
      (c : ℕ) (line : List ℕ) (r : Parsed)
      → (c == 10) ≡ false
      → (c == 13) ≡ false
      → consume_byte judge c (at line text has_data false) ≡ some r
      → r ≡ (at (line ++ c ∷ []) text has_data false, 0)
  unfolding consume_byte take_byte
  push_step c line r h k e = ground (arith, h, k, e)

  -- An accepted chunk has an accepted first byte.
  pushed :
      (c : ℕ) (input line : List ℕ) (m : ℕ) (r : Parsed)
      → consume_from judge (c ∷ input) m (at line text has_data false) ≡ some r
      → (r' : Parsed) × (consume_byte judge c (at line text has_data false) ≡ some r')
  pushed c input line m r e =
      elim (Option-cases (consume_byte judge c (at line text has_data false))) [
        | inl k ↦ absurd (ground (arith, consume_stop judge c input m _ k, e))
        | inr found ↦ found
      ]

  pub scan_none :
      (input line : List ℕ) (m : ℕ) (r : Parsed)
      → m ≤ u64_max
      → next_sse_line input ≡ none
      → consume_from judge input m (at line text has_data false) ≡ some r
      → r ≡ (at (line ++ input) text has_data false, m)
  scan_none [] line m r b h e =
      some_injective r (at line text has_data false, m) (sym e ∙ unfold consume_from in refl)
      ∙ ap (λ x. (at x text has_data false, m)) (sym (append-nil line))
  scan_none (c ∷ input) line m r b h e =
      let (lf, cr, rest) = next_sse_line-none c input h in
      let (r', k) = pushed c input line m r e in
      let step =
        consume_next judge c input m (at line text has_data false)
          (at (line ++ c ∷ []) text has_data false) 0 (k ∙ ap some (push_step c line r' lf cr k)) in
      scan_none input (line ++ c ∷ []) (saturating_add u64_max m 0) r (omega arith) rest
        (sym step ∙ e)
      ∙ ap (λ x. (at x text has_data false, saturating_add u64_max m 0))
          (append_assoc line (c ∷ []) input)
      ∙ ap (λ x. (at (line ++ c ∷ input) text has_data false, x)) (omega (arith, b))

  -- What is left of an accepted parse behind a line.
  abbrev pub Ended : List ℕ → ℕ → Parsed → SseLine → Type 0
  Ended line m r l =
      (q : SseEventParser) × (n : ℕ) × (finish_line judge (at (line ++ l.line) text has_data false)
        ≡ some (q, n))
      × (consume_from judge l.rest (saturating_add u64_max m n)
            (record q { skip_lf_after_cr = l.ends_in_cr })
          ≡ some r)

  pub finish_line-skip :
      (line : List ℕ) (q : SseEventParser) (n : ℕ)
      → finish_line judge (at line text has_data false) ≡ some (q, n)
      → q ≡ at [] q.event_data q.has_data false
  unfolding finish_line finish_field
  finish_line-skip line q n h = elim (Option-cases (strip_prefix data_prefix line)) [
    | inl e ↦ ground (arith, e, h)
    | inr (rest, e) ↦ ground (arith, e, h)
  ]

  lf_step :
      (c : ℕ) (line : List ℕ)
      → (c == 10) ≡ true
      → consume_byte judge c (at line text has_data false)
        ≡ finish_line judge (at line text has_data false)
  unfolding consume_byte take_byte
  lf_step c line h = ground (arith, h)

  cr_step :
      (c : ℕ) (line : List ℕ)
      → (c == 13) ≡ true
      → consume_byte judge c (at line text has_data false)
        ≡ set_skip true (finish_line judge (at line text has_data false))
  unfolding consume_byte take_byte
  cr_step c line h = ground (arith, h)

  -- An accepted line end leaves the rest to parse from what `finish_line` leaves.
  finished :
      (skip : Bool) (c : ℕ) (input line : List ℕ) (m : ℕ) (r : Parsed)
      → consume_byte judge c (at line text has_data false)
        ≡ set_skip skip (finish_line judge (at line text has_data false))
      → consume_from judge (c ∷ input) m (at line text has_data false) ≡ some r
      → (q : SseEventParser) × (n : ℕ) × (finish_line judge (at line text has_data false)
          ≡ some (q, n))
        × (consume_from judge input
              (saturating_add u64_max m n)
              (record q { skip_lf_after_cr = skip })
            ≡ some r)
  finished skip c input line m r k e =
      elim (Option-cases (finish_line judge (at line text has_data false))) [
        | inl f ↦ absurd (
            ground (
              arith,
              consume_stop judge c input m (at line text has_data false) (k ∙ ap (set_skip skip) f),
              e,
            ))
        | inr ((q, n), f) ↦ (
          q,
          n,
          f,
          sym (
                consume_next judge c input m (at line text has_data false)
                  (record q { skip_lf_after_cr = skip }) n (k ∙ ap (set_skip skip) f))
              ∙ e,
        )
      ]

  set_skip-false :
      (line : List ℕ)
      → set_skip false (finish_line judge (at line text has_data false))
        ≡ finish_line judge (at line text has_data false)
  set_skip-false line = elim (Option-cases (finish_line judge (at line text has_data false))) [
    | inl e ↦ rw e refl
    | inr ((q, n), e) ↦
        ap (set_skip false) e
        ∙ ap (λ x. some (record x { skip_lf_after_cr = false }, n)) (finish_line-skip line q n e)
        ∙ ap (λ x. some (x, n)) (sym (finish_line-skip line q n e))
        ∙ sym e
  ]

  -- The line feed behind a carriage return is skipped.
  skipped_lf :
      (c : ℕ) (input : List ℕ) (m : ℕ) (q : SseEventParser) (r : Parsed)
      → (c == 10) ≡ true
      → m ≤ u64_max
      → consume_from judge (c ∷ input) m (record q { skip_lf_after_cr = true }) ≡ some r
      → consume_from judge input m (record q { skip_lf_after_cr = false }) ≡ some r
  skipped_lf c input m q r h b e =
      ap (λ x. consume_from judge input x (record q { skip_lf_after_cr = false }))
        (omega (arith, b))
      ∙ sym (
          consume_next judge c input m (record q { skip_lf_after_cr = true })
            (record q { skip_lf_after_cr = false }) 0 (unfold consume_byte in ground (arith, h)))
      ∙ e

  after_cr-Ended :
      (c : ℕ) (input line : List ℕ) (m : ℕ) (r : Parsed)
      → (c == 13) ≡ true
      → consume_from judge (c ∷ input) m (at line text has_data false) ≡ some r
      → Ended line m r (after_cr input)
  after_cr-Ended c [] line m r h e =
      let (q, n, f, rest) = finished true c [] line m r (cr_step c line h) e in
      (q, n, rw (append-nil line) f, rest)
  after_cr-Ended c (d ∷ input) line m r h e =
      let (q, n, f, rest) = finished true c (d ∷ input) line m r (cr_step c line h) e in
      elim (Bool-cases (d == 10)) [
        | inl k ↦ subst (Ended line m r) (sym (after_cr-lf d input k)) (
          q,
          n,
          rw (append-nil line) f,
          skipped_lf d input (saturating_add u64_max m n) q r k (omega arith) rest,
        )
        | inr k ↦
            subst (Ended line m r) (sym (after_cr-other d input k))
              (q, n, rw (append-nil line) f, rest)
      ]

  lf_Ended :
      (c : ℕ) (input line : List ℕ) (m : ℕ) (r : Parsed)
      → (c == 10) ≡ true
      → consume_from judge (c ∷ input) m (at line text has_data false) ≡ some r
      → Ended line m r (record { line = []; rest = input; ends_in_cr = false })
  lf_Ended c input line m r h e =
      let (q, n, f, rest) =
        finished false c input line m r (lf_step c line h ∙ sym (set_skip-false line)) e in
      (q, n, rw (append-nil line) f, rest)

  push_Ended :
      (c : ℕ) (line : List ℕ) (m : ℕ) (r : Parsed) (l : SseLine)
      → Ended (line ++ c ∷ []) m r l
      → Ended line m r (record l { line = c ∷ l.line })
  push_Ended c line m r l (q, n, f, rest) = (
    q,
    n,
    ap (λ x. finish_line judge (at x text has_data false)) (sym (append_assoc line (c ∷ []) l.line))
        ∙ f,
    rest,
  )

  pub scan_some :
      (input line : List ℕ) (m : ℕ) (r : Parsed) (l : SseLine)
      → m ≤ u64_max
      → next_sse_line input ≡ some l
      → consume_from judge input m (at line text has_data false) ≡ some r
      → Ended line m r l
  scan_some [] line m r l b h e = absurd (unfold next_sse_line in cc)
  scan_some (c ∷ input) line m r l b h e = elim (Bool-cases (c == 10)) [
    | inl lf ↦
        subst (Ended line m r) (line_injective _ l (sym (next_lf c input lf) ∙ h))
          (lf_Ended c input line m r lf e)
    | inr lf ↦ elim (Bool-cases (c == 13)) [
      | inl cr ↦
          subst (Ended line m r) (line_injective _ l (sym (next_cr c input lf cr) ∙ h))
            (after_cr-Ended c input line m r cr e)
      | inr cr ↦
          let (l', found, same) = next_push c input l lf cr h in
          let (r', k) = pushed c input line m r e in
          let step =
            consume_next judge c input m (at line text has_data false)
              (at (line ++ c ∷ []) text has_data false) 0
              (k ∙ ap some (push_step c line r' lf cr k)) in
          subst (Ended line m r) same (
            push_Ended c line m r l' (
              scan_some input (line ++ c ∷ []) m r l' b found (
                ap (λ x. consume_from judge input x (at (line ++ c ∷ []) text has_data false))
                  (omega (arith, b))
                ∙ sym step
                ∙ e)))
    ]
  ]
