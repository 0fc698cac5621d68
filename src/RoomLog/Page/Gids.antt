-- ===== src/RoomLog/Page/Gids.antt =====
-- The rooms of a page of `_fair_log_page` (app/routers/messages.py).
use rcq_server_ref.RoomLog.Rows.{GroupLog, has_rows}
use rcq_server_ref.RoomLog.Page.Held.{serve_held-cases}
use rcq_server_ref.RoomLog.Page.Steps.{take_turns_inv}
use rcq_server_ref.Base.{
  ℕ, [], ◌∷◌, List, ◌≡◌, ◌∙◌, inl, ap, ◌++◌, Bool-cases, sym, if_true, inr, refl, if_false, map,
  length, ◌+◌, not, map-replace, ◌&&◌,
}
use rcq_server_ref.RoomLog.Page.{
  exhausted, held, stretch, charge, Turn, after_turn, refill, serve_room, picking, take_turns,
}
use rcq_server_ref.RoomLog.Page.{
  Page, Room, picking_head, fair_log_page, served_page, start_room, chunk_of, start_page,
}

abbrev pub gids : List Room → List ℕ
gids rooms = map (λ (m : Room). m.gid) rooms

after_turn-gids :
    (p : Page) (b : List Room) (n : Room) (a : List Room) (t : Turn)
    → gids (after_turn p b n a t).rooms ≡ gids (b ++ n ∷ a)
unfolding after_turn picking
after_turn-gids p b n a exhausted = map-replace (λ (m : Room). m.gid) b n _ a refl
after_turn-gids p b n a held = map-replace (λ (m : Room). m.gid) b n _ a refl
after_turn-gids p b n a (stretch r rows) = map-replace (λ (m : Room). m.gid) b n _ a refl
after_turn-gids p b n a (charge r rows) = map-replace (λ (m : Room). m.gid) b n _ a refl

refill-gid : (log : List GroupLog) (uin chunk : ℕ) (m : Room) → (refill log uin chunk m).gid ≡ m.gid
unfolding refill
refill-gid log uin chunk m = elim (Bool-cases (not (has_rows m.buf) && m.unread)) [
  | inl e ↦ ap (λ (n : Room). n.gid) (if_true (not (has_rows m.buf) && m.unread) _ _ e)
  | inr e ↦ ap (λ (n : Room). n.gid) (if_false (not (has_rows m.buf) && m.unread) _ _ e)
]

picking_head-gid : (rows : List GroupLog) (m : Room) → (picking_head rows m).gid ≡ m.gid
picking_head-gid [] m = refl
picking_head-gid (r ∷ rows) m = refl

start_rooms-gids :
    (starts : List (ℕ × ℕ)) → gids (map start_room starts) ≡ map (λ (x : ℕ × ℕ). x.0) starts
start_rooms-gids [] = refl
start_rooms-gids ((gid, start) ∷ starts) = ap (λ (x : List ℕ). gid ∷ x) (start_rooms-gids starts)

-- The rooms of a page are those that were asked for, in their order.
pub fair_log_page-gids :
    (log : List GroupLog) (uin : ℕ) (starts : List (ℕ × ℕ)) (limit : ℕ)
    → gids (fair_log_page log uin starts limit).0 ≡ map (λ (x : ℕ × ℕ). x.0) starts
unfolding fair_log_page served_page serve_room
fair_log_page-gids log uin starts limit =
    let chunk = chunk_of limit (length starts) in
    let served = take_turns (limit + length starts) log uin chunk (start_page starts limit) in
    let kept : gids served.rooms ≡ map (λ (x : ℕ × ℕ). x.0) starts =
      take_turns_inv log uin chunk (λ p. gids p.rooms ≡ map (λ (x : ℕ × ℕ). x.0) starts)
        (λ p b m a h e w l.
          after_turn-gids p b (refill log uin chunk m) a _
          ∙ map-replace (λ (m : Room). m.gid) b m _ a (refill-gid log uin chunk m)
          ∙ sym (ap gids e)
          ∙ h)
        (limit + length starts) (start_page starts limit) (start_rooms-gids starts) in
    elim (serve_held-cases served.rooms) [
      | inl (e, why) ↦ ap gids e ∙ kept
      | inr (b, m, a, s, t, n, e) ↦
          ap gids e
          ∙ map-replace (λ (m : Room). m.gid) b m _ a (picking_head-gid m.buf m)
          ∙ sym (ap gids s)
          ∙ kept
    ]
