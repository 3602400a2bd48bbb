-- ===== src/Connection/Send.antt =====
-- src/lib.rs: `Conn::write_message`, down to the calls of `send_with_fds`.
use wl_resprox.Prelude.{
  ℕ, zero, suc, ◌+◌, ◌≤◌, ◌≡◌, refl, sym, ap, ◌∙◌, List, [], ◌∷◌, ◌++◌, if◌then◌else◌, ◌==◌, ltb,
  length, take, drop, drop-drop, take-append-drop, arith, All, inl, inr, Bool-cases, lt→ltb, false,
}
use wl_resprox.Wire.Words.{Bytes}
use mathlib.Core.List.{append_assoc, append-nil}

-- What one call gives: it took so many bytes, it would block, or it failed.
pub data Taken : Type 0 where
  accepted : ℕ → Taken
  would_block refused : Taken

-- What reaches the other side, call by call: the bytes that were taken and the descriptors that came
-- with them.
abbrev pub Packets : Type 0
Packets = List (Bytes × List ℕ)

pub data Written : Type 0 where
  written broken blocked : Written

-- The loop with `sent` bytes gone. `blocked` if the system gives no further answer.
unfoldable pub write_loop : List Taken → Bytes → List ℕ → ℕ → Written × Packets
write_loop [] msg fds sent = if ltb sent (length msg) then (blocked, []) else (written, [])
write_loop (answer ∷ rest) msg fds sent =
    let fds_for_this_call : List ℕ = if sent == 0 then fds else [] in
    if ltb sent (length msg)
    then elim answer [
      | accepted n ↦
          let (result, later) = write_loop rest msg fds (sent + n) in
          (result, (take n (drop sent msg), fds_for_this_call) ∷ later)
      | would_block ↦ write_loop rest msg fds sent
      | refused ↦ (broken, [])
    ]
    else (written, [])

unfoldable pub write_calls : List Taken → Bytes → List ℕ → Written × Packets
unfolding write_loop
write_calls answers msg fds = write_loop answers msg fds 0

unfoldable pub sent_bytes : Packets → Bytes
sent_bytes [] = []
sent_bytes ((bytes, fds) ∷ rest) = bytes ++ sent_bytes rest

unfoldable pub sent_fds : Packets → List ℕ
sent_fds [] = []
sent_fds ((bytes, fds) ∷ rest) = fds ++ sent_fds rest

-- A call that takes anything takes at least a byte.
abbrev pub TakesSome : Taken → Type 0
TakesSome (accepted n) = 1 ≤ n
TakesSome _ = Unit

-- What reaches the other side is the front of what was left to send.
abbrev Front : Written × Packets → Bytes → Type 0
Front (result, packets) left =
    (after : Bytes) × (sent_bytes packets ++ after ≡ left) × (result ≡ written → after ≡ [])

drop_all {ℓ} : {A : Type ℓ} (n : ℕ) (xs : List A) → length xs ≤ n → drop n xs ≡ []
drop_all zero [] h = refl
drop_all zero (x ∷ xs) h = absurd (omega arith)
drop_all (suc n) [] h = refl
drop_all (suc n) (x ∷ xs) h = drop_all n xs (omega arith)

-- Once all is sent nothing is left.
Front-done :
    (msg : Bytes) (sent : ℕ) → ltb sent (length msg) ≡ false → Front (written, []) (drop sent msg)
unfolding sent_bytes
Front-done msg sent h = (drop sent msg, refl, λ e. drop_all sent msg (ground arith))

-- Whatever the calls give, what reaches the other side is the front of what was left to send, and
-- all of it if the loop says that it is written.
write_loop-Front :
    (answers : List Taken) (msg : Bytes) (fds : List ℕ) (sent : ℕ)
    → Front (write_loop answers msg fds sent) (drop sent msg)
unfolding write_loop sent_bytes
write_loop-Front [] msg fds sent = elim (Bool-cases (ltb sent (length msg))) [
  | inr done ↦ rw (done, write_loop) (Front-done msg sent done)
  | inl less ↦ rw (less, write_loop) (drop sent msg, refl, λ e. cc)
]
write_loop-Front (accepted n ∷ rest) msg fds sent = elim (Bool-cases (ltb sent (length msg))) [
  | inr done ↦ rw (done, write_loop) (Front-done msg sent done)
  | inl less ↦
      let (after, all, whole) = write_loop-Front rest msg fds (sent + n) in
      rw (less, write_loop)
        (
          after,
          append_assoc (take n (drop sent msg)) (sent_bytes (write_loop rest msg fds (sent + n)).1)
                after
              ∙ ap (λ x. take n (drop sent msg) ++ x) (all ∙ sym (drop-drop sent n msg))
              ∙ take-append-drop n (drop sent msg),
          whole,
        )
]
write_loop-Front (would_block ∷ rest) msg fds sent = elim (Bool-cases (ltb sent (length msg))) [
  | inr done ↦ rw (done, write_loop) (Front-done msg sent done)
  | inl less ↦ rw (less, write_loop) (write_loop-Front rest msg fds sent)
]
write_loop-Front (refused ∷ rest) msg fds sent = elim (Bool-cases (ltb sent (length msg))) [
  | inr done ↦ rw (done, write_loop) (Front-done msg sent done)
  | inl less ↦ rw (less, write_loop) (drop sent msg, refl, λ e. cc)
]

-- Once a byte is sent no descriptor goes out.
write_loop-sent_fds :
    (answers : List Taken) (msg : Bytes) (fds : List ℕ) (sent : ℕ)
    → 1 ≤ sent
    → sent_fds (write_loop answers msg fds sent).1 ≡ []
unfolding write_loop sent_fds
write_loop-sent_fds [] msg fds sent h = ground arith
write_loop-sent_fds (accepted n ∷ rest) msg fds sent h =
    let later = write_loop-sent_fds rest msg fds (sent + n) (omega arith) in ground arith
write_loop-sent_fds (would_block ∷ rest) msg fds sent h =
    let later = write_loop-sent_fds rest msg fds sent h in ground arith
write_loop-sent_fds (refused ∷ rest) msg fds sent h = ground arith

-- The descriptors go out once, with the first bytes.
first_fds :
    (answers : List Taken) (msg : Bytes) (fds : List ℕ)
    → All TakesSome answers
    → 1 ≤ length msg
    → (write_loop answers msg fds 0).0 ≡ written
    → sent_fds (write_loop answers msg fds 0).1 ≡ fds
unfolding write_loop sent_fds
first_fds [] msg fds some_taken h w = ground arith
first_fds (accepted n ∷ rest) msg fds some_taken h w =
    let later = write_loop-sent_fds rest msg fds (0 + n) (omega (arith, some_taken.0)) in
    rw (lt→ltb 0 (length msg) (omega arith), write_loop, later) (append-nil fds)
first_fds (would_block ∷ rest) msg fds some_taken h w =
    let less = lt→ltb 0 (length msg) (omega arith) in
    rw (less, write_loop) (first_fds rest msg fds some_taken.1 h (ground arith))
first_fds (refused ∷ rest) msg fds some_taken h w = ground arith

-- If the calls that take anything take at least a byte, and the loop says that a message that is not
-- empty is written, then the other side gets all its bytes, in order, and each descriptor once.
pub write_calls-whole :
    (answers : List Taken) (msg : Bytes) (fds : List ℕ)
    → All TakesSome answers
    → 1 ≤ length msg
    → (write_calls answers msg fds).0 ≡ written
    → (sent_bytes (write_calls answers msg fds).1 ≡ msg)
      × (sent_fds (write_calls answers msg fds).1 ≡ fds)
unfolding write_calls
write_calls-whole answers msg fds some_taken h w =
    let (after, all, whole) = write_loop-Front answers msg fds 0 in
    (
      sym (append-nil (sent_bytes (write_loop answers msg fds 0).1))
          ∙ ap (λ x. sent_bytes (write_loop answers msg fds 0).1 ++ x) (sym (whole w))
          ∙ all,
      first_fds answers msg fds some_taken h w,
    )
