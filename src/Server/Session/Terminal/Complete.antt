-- ===== src/Server/Session/Terminal/Complete.antt =====
-- How `write_all_to_fd` of crates/sqshd/src/channel/session.rs ends.
use squish.Proto.Message.{Bytes}
use squish.Server.Session.Terminal.{write_all_to_fd, Write, would_block, takes, write_error}
use squish.Prelude.{
  ℕ, List, ◌∷◌, ◌<◌, All, suc, length, ◌≤◌, [], ◌≡◌, some, ok, arith, length-drop, drop, ap,
  take-append-drop, refl, zero,
}

-- A write that does not fail, and takes something if it takes bytes at all.
pub data IsProgress : Write → Type 0 where
  blocked : IsProgress would_block
  took : (n : ℕ) → 0 < n → IsProgress (takes n)

abbrev pub takes_count : List Write → ℕ
takes_count [] = 0
takes_count (takes n ∷ ws) = suc (takes_count ws)
takes_count (_ ∷ ws) = takes_count ws

-- When no write fails or takes nothing, as many writes as there are bytes are enough, however the
-- PTY cuts them and however often it blocks: the loop ends well, and has written exactly the
-- buffer, in order.
pub write_all_to_fd_complete :
    (bs : Bytes) (ws : List Write)
    → All IsProgress ws
    → length bs ≤ takes_count ws
    → write_all_to_fd bs ws ≡ (bs, some (ok tt))
unfolding write_all_to_fd
write_all_to_fd_complete [] ws p h = refl
write_all_to_fd_complete (b ∷ bs) [] p h = absurd (omega arith)
write_all_to_fd_complete (b ∷ bs) (takes (suc n) ∷ ws) (p, ps) h =
    let less = length-drop n bs in
    let rest = write_all_to_fd_complete (drop n bs) ws ps (omega (arith, less)) in
    rw rest (ap (λ x. (b ∷ x, some (ok tt))) (take-append-drop n bs))
write_all_to_fd_complete (b ∷ bs) (takes zero ∷ ws) (took _ h, ps) k = absurd (omega arith)
write_all_to_fd_complete (b ∷ bs) (would_block ∷ ws) (p, ps) h =
    write_all_to_fd_complete (b ∷ bs) ws ps h
write_all_to_fd_complete (b ∷ bs) (write_error ∷ ws) (p, ps) h = elim p [ ]
