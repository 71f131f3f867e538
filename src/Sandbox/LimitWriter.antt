-- ===== src/Sandbox/LimitWriter.antt =====
-- internal/sandbox/docker.go: `limitWriter`, the capped buffer behind the output of a run.
use runboxd.Base.{
  ℕ, ◌+◌, ◌-◌, min, ◌≡◌, refl, sym, List, [], ◌∷◌, ◌++◌, append_assoc, append-nil, arith, length,
  length-append, length-take, take, take-nil, take-append, take-min, Bool-cases, inl, inr, ltb→ge,
  ltb, if◌then◌else◌,
}
use runboxd.Base.Text.{Text}

pub record LimitWriter : Type 0 where
  pub buf : Text
  pub n : ℕ

-- The new writer, and the count that the call returns.
unfoldable pub write : LimitWriter → Text → LimitWriter × ℕ
write lw p =
    let taken : ℕ = min (length p) lw.n in
    (if ltb 0 lw.n then record { buf = lw.buf ++ take taken p; n = lw.n - taken } else lw, length p)

unfoldable pub new_writer : ℕ → LimitWriter
new_writer n = record { buf = []; n = n }

-- The writes of a run, in order.
unfoldable pub write_all : LimitWriter → List Text → LimitWriter
write_all lw [] = lw
write_all lw (p ∷ ps) = write_all (write lw p).0 ps

abbrev pub concat : List Text → Text
concat [] = []
concat (p ∷ ps) = p ++ concat ps

write-buf : (lw : LimitWriter) (p : Text) → (write lw p).0.buf ≡ lw.buf ++ take lw.n p
unfolding write
write-buf lw p = elim (Bool-cases (ltb 0 lw.n)) [
  | inl room ↦ rw (room, take-min (min (length p) lw.n) lw.n p refl)
  | inr full ↦
      let none_left : lw.n ≡ 0 = omega (arith, ltb→ge 0 lw.n full) in
      rw (full, none_left) (sym (append-nil lw.buf))
]

write-n : (lw : LimitWriter) (p : Text) → (write lw p).0.n ≡ lw.n - length p
unfolding write
write-n lw p = ground arith

write_all-buf :
    (lw : LimitWriter) (ps : List Text) → (write_all lw ps).buf ≡ lw.buf ++ take lw.n (concat ps)
unfolding write_all
write_all-buf lw [] = rw (take-nil lw.n) (sym (append-nil lw.buf))
write_all-buf lw (p ∷ ps) =
    rw
      (
        write_all-buf (write lw p).0 ps,
        write-buf lw p,
        write-n lw p,
        take-append lw.n p (concat ps),
      )
      (append_assoc lw.buf (take lw.n p) (take (lw.n - length p) (concat ps)))

-- Whatever the pieces in which the output arrives, a writer for `n` bytes holds the first `n` bytes
-- of it.
pub write_all-new_writer :
    (n : ℕ) (ps : List Text) → (write_all (new_writer n) ps).buf ≡ take n (concat ps)
unfolding new_writer
write_all-new_writer n ps = write_all-buf _ ps

-- Every write reports all of its bytes as written, and the buffer never grows beyond the limit.
pub write-count :
    (lw : LimitWriter) (p : Text)
    → ((write lw p).1 ≡ length p)
      × (length (write lw p).0.buf + (write lw p).0.n ≡ length lw.buf + lw.n)
unfolding write
write-count lw p = ground (
  arith,
  length-append lw.buf (take (min (length p) lw.n) p),
  length-take (min (length p) lw.n) p,
)
