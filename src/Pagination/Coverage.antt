-- ===== src/Pagination/Coverage.antt =====
-- Paging back with crates/nostr-pubsub/src/pagination.rs skips no time.
use nostr_pubsub.Prelude.{
  ℕ, ◌≤◌, ◌<◌, ◌≡◌, refl, ◌⊎◌, inl, inr, none, some, arith, length, Bool-cases, Option-cases,
}
use nostr_pubsub.Pagination.Cursor.{
  PageToken, PageCompletion, complete, partial, ActivePage, HistoryCursor, expect, page_of, advance,
  close_page, finish_page,
}

-- The page reached back beyond the time, or was not full.
abbrev pub Reaches : ℕ → ℕ → ℕ → ℕ → Type 0
Reaches oldest unique limit t = (oldest < t) ⊎ (unique < limit)

module _ {R : Type 0} where
  advance-Reaches :
      (oldest limit unique t : ℕ) (c : HistoryCursor R)
      → expect (advance oldest (expect c.filter.until) limit unique c).0.filter.until < t
      → t ≤ expect c.filter.until
      → Reaches oldest unique limit t
  unfolding advance
  advance-Reaches oldest limit unique t c h le = ground arith

  close_page-Reaches :
      (completion : PageCompletion) (p : ActivePage) (c : HistoryCursor R) (t : ℕ)
      → expect (close_page completion p c).0.filter.until < t
      → t ≤ expect c.filter.until
      → (completion ≡ complete)
        × (o : ℕ) × (p.oldest ≡ some o)
        × Reaches o (length p.seen) (expect c.filter.limit) t
  unfolding close_page
  close_page-Reaches partial p c t h le = absurd (ground arith)
  close_page-Reaches complete p c t h le = elim (Bool-cases p.overflow) [
    | inl b ↦ absurd (ground arith)
    | inr b ↦ elim (Option-cases p.oldest) [
      | inl e ↦ absurd (ground arith)
      | inr (o, e) ↦ (
        refl,
        o,
        e,
        advance-Reaches o (expect c.filter.limit) (length p.seen) t c (rw (b, e, close_page) at h)
            le,
      )
    ]
  ]

  -- If the end of a page, under its token, moves the end of the window below a time that the window
  -- held, the source completed the page, and the oldest event of the page is older than this time,
  -- or the page has fewer events than its limit.
  pub finish_page-Reaches :
      (token : PageToken) (completion : PageCompletion) (c : HistoryCursor R) (p : ActivePage)
      (t : ℕ)
      → page_of token c ≡ some p
      → expect (finish_page token completion c).0.filter.until < t
      → t ≤ expect c.filter.until
      → (completion ≡ complete)
        × (o : ℕ) × (p.oldest ≡ some o)
        × Reaches o (length p.seen) (expect c.filter.limit) t
  unfolding finish_page
  finish_page-Reaches token completion c p t e h le =
      close_page-Reaches completion p (record c { active = none }) t (rw (e, finish_page) at h) le
