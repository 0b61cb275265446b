-- ===== src/Daemon/Lock.antt =====
-- What daemon_lock writes into the file that it has locked.
use native.Mathlib.Nat.{pow-succ'}
use mathlib.Core.List.{append_assoc}
use ig_libs.Base.{
  ℕ, zero, suc, ◌+◌, ◌-◌, ◌/◌, ◌%◌, ◌^◌, ◌≤◌, ◌<◌, ◌≡◌, refl, inl, inr, sym, ap, ◌∙◌, arith, pos,
  true, false, Bool-cases, Option, some, List, [], ◌∷◌, ◌++◌, append-nil, length, length-set,
  length-drop, set, take, drop, ltb, lt→ltb,
}
use ig_libs.Text.Digits.{decimal, decimal_loop}
use ig_libs.Daemon.{
  ascii_loop, written_pid, lock_answered, daemon_lock, LockAnswer, locked, lock_whole, truncate,
  put,
}

drop-set : (xs : List ℕ) (i v : ℕ) → i < length xs → drop i (set xs i v) ≡ v ∷ drop (suc i) xs
drop-set [] i v h = absurd (omega arith)
drop-set (x ∷ xs) zero v h = refl
drop-set (x ∷ xs) (suc i) v h = drop-set xs i v (omega arith)

take_all : (xs : List ℕ) (n : ℕ) → length xs ≡ n → take n xs ≡ xs
take_all [] zero h = refl
take_all [] (suc n) h = refl
take_all (x ∷ xs) zero h = absurd (omega arith)
take_all (x ∷ xs) (suc n) h = ap (◌∷◌ x) (take_all xs n (omega arith))

drop_all : (xs : List ℕ) (n : ℕ) → length xs ≡ n → drop n xs ≡ []
drop_all [] zero h = refl
drop_all [] (suc n) h = refl
drop_all (x ∷ xs) zero h = absurd (omega arith)
drop_all (x ∷ xs) (suc n) h = drop_all xs n (omega arith)

-- The end of the buffer that is filled.
record Filled (n : ℕ) (text behind : List ℕ) (out : List ℕ × ℕ) : Type 0 where
  size : length out.0 ≡ 16
  room : (n < out.1) × (out.1 ≤ 16)
  digits : drop (16 - out.1) out.0 ≡ text ++ behind

one_more :
    (n : ℕ) (buf : List ℕ) (v : ℕ)
    → n < 16
    → length buf ≡ 16
    → drop (16 - suc n) (set buf (15 - n) v) ≡ v ∷ drop (16 - n) buf
one_more n buf v h l =
    let at : 16 - suc n ≡ 15 - n = omega arith in
    let behind : suc (15 - n) ≡ 16 - n = omega arith in
    ap (λ i. drop i (set buf (15 - n) v)) at
    ∙ drop-set buf (15 - n) v (omega arith)
    ∙ ap (λ i. v ∷ drop i buf) behind

ascii_loop-step :
    (fuel pid n : ℕ) (buf : List ℕ)
    → 0 < pid
    → n < 16
    → ascii_loop (suc fuel) pid buf n
      ≡ ascii_loop fuel (pid / 10) (set buf (15 - n) (pid % 10 + 48)) (suc n)
unfolding ascii_loop
ascii_loop-step fuel pid n buf p h = rw (lt→ltb 0 pid p, lt→ltb n 16 h)

ascii_loop-end : (fuel : ℕ) (buf : List ℕ) (n : ℕ) → ascii_loop (suc fuel) 0 buf n ≡ (buf, n)
unfolding ascii_loop
ascii_loop-end fuel buf n = refl

ascii_loop-Filled :
    (fuel dfuel pid room n : ℕ) (buf : List ℕ)
    → 0 < pid
    → pid < dfuel
    → pid < 10 ^ room
    → n + room ≡ 16
    → room < fuel
    → length buf ≡ 16
    → Filled n (decimal_loop dfuel pid) (drop (16 - n) buf) (ascii_loop fuel pid buf n)
unfolding decimal_loop
ascii_loop-Filled zero dfuel pid room n buf p d r s f l = absurd (omega arith)
ascii_loop-Filled (suc fuel) zero pid room n buf p d r s f l = absurd (omega arith)
ascii_loop-Filled (suc fuel) (suc dfuel) pid zero n buf p d r s f l = absurd (omega arith)
ascii_loop-Filled (suc zero) (suc dfuel) pid (suc room) n buf p d r s f l = absurd (omega arith)
ascii_loop-Filled (suc (suc fuel)) (suc dfuel) pid (suc room) n buf p d r s f l =
    rw (ascii_loop-step (suc fuel) pid n buf p (omega arith)) (elim (Bool-cases (ltb pid 10)) [
      | inl small ↦ rw small (last small)
      | inr large ↦ rw large (
          more large (
            ascii_loop-Filled (suc fuel) dfuel (pid / 10) room (suc n) stored (ground arith)
              (ground arith) (omega (arith, pow-succ' 10 room)) (omega arith) (omega arith)
              (omega (arith, length-set buf (15 - n) (pid % 10 + 48)))))
    ])
  where
    stored : List ℕ
    stored = set buf (15 - n) (pid % 10 + 48)

    turned : pid % 10 + 48 ≡ 48 + pid % 10
    turned = omega arith

    last :
        ltb pid 10 ≡ true
        → Filled n
            ((48 + pid) ∷ [])
            (drop (16 - n) buf)
            (ascii_loop (suc fuel) (pid / 10) stored (suc n))
    last small =
        let none_left : pid / 10 ≡ 0 = ground arith in
        let same : pid % 10 + 48 ≡ 48 + pid = ground arith in
        rw (none_left, ascii_loop-end fuel stored (suc n))
          (record {
            size = omega (arith, length-set buf (15 - n) (pid % 10 + 48));
            room = (omega arith, omega arith);
            digits =
                one_more n buf (pid % 10 + 48) (omega arith) l
                ∙ ap (λ v. v ∷ drop (16 - n) buf) same;
          })

    more :
        ltb pid 10 ≡ false
        → Filled
            (suc n)
            (decimal_loop dfuel (pid / 10))
            (drop (16 - suc n) stored)
            (ascii_loop (suc fuel) (pid / 10) stored (suc n))
        → Filled n
            (decimal_loop dfuel (pid / 10) ++ ((48 + pid % 10) ∷ []))
            (drop (16 - n) buf)
            (ascii_loop (suc fuel) (pid / 10) stored (suc n))
    more large g = record {
      size = g.size;
      room = (omega (arith, g.room), g.room.1);
      digits =
          g.digits
          ∙ ap (λ x. decimal_loop dfuel (pid / 10) ++ x)
              (one_more n buf (pid % 10 + 48) (omega arith) l)
          ∙ ap (λ v. decimal_loop dfuel (pid / 10) ++ (v ∷ drop (16 - n) buf)) turned
          ∙ sym (
              append_assoc (decimal_loop dfuel (pid / 10)) ((48 + pid % 10) ∷ [])
                (drop (16 - n) buf));
    }

-- Let the path name a file that can be opened and locked, and let the process number be positive and below 10 ^ 16; the buffer has 16 bytes,
-- whatever they are. Then daemon_lock locks the file, empties it, writes the number in decimal notation, and returns the descriptor.
pub daemon_lock_writes :
    (open_file : List ℕ → Option ℕ) (answer : ℕ → LockAnswer) (pid fd : ℕ) (buf fpath : List ℕ)
    → open_file fpath ≡ some fd
    → answer fd ≡ locked
    → 0 < pid
    → pid < 10 ^ 16
    → length buf ≡ 16
    → daemon_lock open_file answer pid buf (some fpath)
      ≡ (pos fd, lock_whole fd ∷ truncate fd ∷ put fd (decimal pid) ∷ [])
unfolding daemon_lock lock_answered decimal
daemon_lock_writes open_file answer pid fd buf fpath o a p d l =
    rw (o, a)
      (written (ascii_loop 17 pid buf 0) (
        ascii_loop-Filled 17 (suc pid) pid 16 0 buf p (omega arith) d (omega arith) (omega arith)
          l))
  where
    nothing : drop (16 - 0) buf ≡ []
    nothing = drop_all buf 16 (omega arith)

    written :
        (out : List ℕ × ℕ)
        → Filled 0 (decimal_loop (suc pid) pid) (drop (16 - 0) buf) out
        → written_pid fd out
          ≡ (pos fd, lock_whole fd ∷ truncate fd ∷ put fd (decimal_loop (suc pid) pid) ∷ [])
    written (b, n) g = rw (lt→ltb 0 n (omega (arith, g.room.0))) (
        ap (λ t. (pos fd, lock_whole fd ∷ truncate fd ∷ put fd t ∷ []))
          (take_all (drop (16 - n) b) n (omega (arith, length-drop (16 - n) b, g.size, g.room.1))
            ∙ g.digits
            ∙ ap (λ t. decimal_loop (suc pid) pid ++ t) nothing
            ∙ append-nil (decimal_loop (suc pid) pid)))
