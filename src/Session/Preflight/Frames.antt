-- ===== src/Session/Preflight/Frames.antt =====
-- Where the fields of a Hello and a Challenge stand in their frames.
use c0_pqlink_complete.Prelude.{
  ◌≡◌, ap, ◌∙◌, sym, Bytes, ◌++◌, append_assoc, take, drop, length, length-append, length-drop,
  arith,
}
use c0_pqlink_complete.Prelude.Arrays.{
  slice, take-append, drop-append, drop-append_ge, take_all, cut,
}

-- The six parts of a Hello frame by their lengths.
pub hello_fields :
    (h s d e n t : Bytes)
    → length h ≡ 10
    → length s ≡ 2
    → length d ≡ 8
    → length e ≡ 8
    → length n ≡ 16
    → length t ≡ 16
    → let core = h ++ (s ++ (d ++ (e ++ n))) in
      let f = core ++ t in
      (length f ≡ 60)
      × (take 44 f ≡ core)
      × (slice 44 16 f ≡ t)
      × (f ≡ h ++ (s ++ (d ++ (e ++ (n ++ t)))))
      × (drop 10 f ≡ s ++ (d ++ (e ++ (n ++ t))))
      × (slice 12 8 f ≡ d)
      × (drop 20 f ≡ e ++ (n ++ t))
      × (slice 28 16 f ≡ n)
hello_fields h s d e n t lh ls ld le ln lt = (
  omega (arith, length-append core t, core_length, lt),
  take-append core t 44 core_length,
  ap (λ x. take 16 x) (drop-append core t 44 core_length) ∙ take_all t 16 lt,
  flat,
  after_h,
  ap (λ x. take 8 x) after_s ∙ take-append d (e ++ (n ++ t)) 8 ld,
  after_d,
  ap (λ x. take 16 x) after_e ∙ take-append n t 16 ln,
)
  where
    core : Bytes
    core = h ++ (s ++ (d ++ (e ++ n)))

    core_length : length core ≡ 44
    core_length = omega (
      arith,
      length-append h (s ++ (d ++ (e ++ n))),
      length-append s (d ++ (e ++ n)),
      length-append d (e ++ n),
      length-append e n,
    )

    flat : core ++ t ≡ h ++ (s ++ (d ++ (e ++ (n ++ t))))
    flat = simp append_assoc

    after_h : drop 10 (core ++ t) ≡ s ++ (d ++ (e ++ (n ++ t)))
    after_h = ap (λ x. drop 10 x) flat ∙ drop-append h (s ++ (d ++ (e ++ (n ++ t)))) 10 lh

    after_s : drop 12 (core ++ t) ≡ d ++ (e ++ (n ++ t))
    after_s =
        ap (λ x. drop 12 x) flat
        ∙ drop-append_ge h (s ++ (d ++ (e ++ (n ++ t)))) 10 12 lh (omega arith)
        ∙ drop-append s (d ++ (e ++ (n ++ t))) 2 ls

    after_d : drop 20 (core ++ t) ≡ e ++ (n ++ t)
    after_d =
        ap (λ x. drop 20 x) flat
        ∙ drop-append_ge h (s ++ (d ++ (e ++ (n ++ t)))) 10 20 lh (omega arith)
        ∙ drop-append_ge s (d ++ (e ++ (n ++ t))) 2 10 ls (omega arith)
        ∙ drop-append d (e ++ (n ++ t)) 8 ld

    after_e : drop 28 (core ++ t) ≡ n ++ t
    after_e =
        ap (λ x. drop 28 x) flat
        ∙ drop-append_ge h (s ++ (d ++ (e ++ (n ++ t)))) 10 28 lh (omega arith)
        ∙ drop-append_ge s (d ++ (e ++ (n ++ t))) 2 18 ls (omega arith)
        ∙ drop-append_ge d (e ++ (n ++ t)) 8 16 ld (omega arith)
        ∙ drop-append e (n ++ t) 8 le

-- A 60-byte frame is the join of its six parts.
pub hello_split :
    (f : Bytes)
    → length f ≡ 60
    → f
      ≡ (take 10 f ++ (slice 10 2 f ++ (slice 12 8 f ++ (slice 20 8 f ++ slice 28 16 f))))
        ++ slice 44 16 f
hello_split f l =
    cut 0 10 f
    ∙ ap (λ x. take 10 f ++ x) parts
    ∙ regroup (take 10 f) (slice 10 2 f) (slice 12 8 f) (slice 20 8 f) (slice 28 16 f)
        (slice 44 16 f)
  where
    last : drop 44 f ≡ slice 44 16 f
    last = sym (take_all (drop 44 f) 16 (omega (arith, length-drop 44 f)))

    parts :
        drop 10 f
        ≡ slice 10 2 f ++ (slice 12 8 f ++ (slice 20 8 f ++ (slice 28 16 f ++ slice 44 16 f)))
    parts =
        cut 10 2 f
        ∙ ap (λ x. slice 10 2 f ++ x)
            (cut 12 8 f
              ∙ ap (λ x. slice 12 8 f ++ x)
                  (cut 20 8 f
                    ∙ ap (λ x. slice 20 8 f ++ x)
                        (cut 28 16 f ∙ ap (λ x. slice 28 16 f ++ x) last)))

    regroup :
        (h s d e n t : Bytes)
        → h ++ (s ++ (d ++ (e ++ (n ++ t)))) ≡ (h ++ (s ++ (d ++ (e ++ n)))) ++ t
    regroup h s d e n t = simp append_assoc
