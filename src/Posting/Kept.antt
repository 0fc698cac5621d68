-- ===== src/Posting/Kept.antt =====
-- Whom the rows of a group envelope are kept for (`_keep_for` and `_queueable` of
-- app/routers/messages.py).
use rcq_server_ref.Posting.Keep.{keep_for, queueable, Seen, is_seen_since}
use rcq_server_ref.Base.{
  ℕ, List, String, ◌∈◌, ◌⊎◌, ◌≡◌, true, some, Bool-cases, ◌==◌, ◌&&◌, not, same_text, inl, inr,
  mem-append, mem-map, mem-filter,
}

-- Whoever is woken for an envelope has its copy: a woken recipient among the members is in the set
-- that the envelope is kept for, whatever the type of the envelope and however long the member has been away; and a
-- member seen since the cutoff is in it too.
pub woken_kept :
    (cutoff : ℕ) (members : List Seen) (recipients wake : List ℕ) (cls : ℕ) (envelope_type : String)
    (m : Seen)
    → m ∈ members
    → m.uin ∈ recipients
    → (m.uin ∈ wake) ⊎ (is_seen_since cutoff m.last_seen ≡ true)
    → m.uin ∈ keep_for recipients (queueable (some cutoff) members) cls wake envelope_type
unfolding keep_for queueable
woken_kept cutoff members recipients wake cls envelope_type m i r h =
    elim (Bool-cases (cls == 2 && not (same_text envelope_type "sknack"))) [
      | inl e ↦ rw e r
      | inr e ↦ rw e (
          mem-append m.uin _ wake (elim h [
            | inl w ↦ inr w
            | inr s ↦ inl (mem-map (λ (x : Seen). x.uin) m _ (mem-filter _ m members s i))
          ]))
    ]
