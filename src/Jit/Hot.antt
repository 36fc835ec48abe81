-- ===== src/Jit/Hot.antt =====
-- src/jit/hotness.rs: the counter over many executions.
use armx.Base.{ℕ, zero, suc, ◌+◌, ◌^◌, ◌<◌, ◌≡◌, ◌∙◌, arith, leb, u32_max, min}
use armx.Jit.{Hotness, hit, is_hot}

-- After a number of hits.
abbrev pub after_hits : ℕ → Hotness → Hotness
after_hits zero h = h
after_hits (suc n) h = after_hits n (hit h).0

after_hits-hits :
    (n : ℕ) (h : Hotness) → h.hits < 2 ^ 32 → (after_hits n h).hits ≡ min (h.hits + n) u32_max
unfolding hit
after_hits-hits zero h bound = ground arith
after_hits-hits (suc n) h bound =
    let bounded : (hit h).0.hits < 2 ^ 32 = ground arith in
    after_hits-hits n (hit h).0 bounded ∙ ground arith

-- A block is hot after n hits just when its hits until then and n come to the threshold: the
-- saturation of the counter hides no hit from a threshold of 32 bits.
pub is_hot-after_hits :
    (n threshold : ℕ) (h : Hotness)
    → h.hits < 2 ^ 32
    → threshold < 2 ^ 32
    → is_hot (after_hits n h) threshold ≡ leb threshold (h.hits + n)
unfolding is_hot
is_hot-after_hits n threshold h bound fits = rw (after_hits-hits n h bound) (ground arith)
