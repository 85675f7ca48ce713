-- ===== src/Fips/Pending/Taking.antt =====
-- Which answers crates/nostr-pubsub-fips/src/pending_wants.rs accepts, and what a retry does.
use nostr_pubsub.Prelude.{
  ℕ, ◌+◌, ◌-◌, ◌*◌, ◌^◌, ◌≤◌, ◌<◌, ◌≡◌, refl, ap, ◌∙◌, min, Bool, true, ◌&&◌, Option, none, some,
  List, [], ◌∷◌, ◌++◌, any, Bool-cases, Option-cases, inl, inr, arith, List-cases, if◌then◌else◌,
  ltb, leb, u64_max,
}
use nostr_pubsub.Prelude.Map.{Text, text_key, eqb, Map, get, get-remove, Distinct}
use nostr_pubsub.Prelude.Map.Queue.{elem}
use nostr_pubsub.Fips.Pending.{
  InventoryProvider, PendingInventory, PendingWants, find_requested, answers, take_matching,
  retain_entries, judge, surviving, batch, report, Verdict, retry_due, ask, rotate, RetryBatch,
}
use nostr_pubsub.Fips.Pending.Retain.{get-retain_map}
use nostr_pubsub.Fips.Pending.Bounds.{IsPending}

some_of : {A : Type 0} (x y : A) → some x ≡ some y → x ≡ y
some_of x y h = cc

abbrev providers : PendingInventory → List InventoryProvider
providers p = p.selected ∷ p.alternatives

-- Whether a provider is the peer, was asked, and offered the event under the subscription.
abbrev was_asked : Text → Text → InventoryProvider → Bool
was_asked source subscription q =
    q.requested && (eqb q.peer_npub source && elem subscription q.subscription_ids)

any-find_requested :
    (source subscription : Text) (ps : List InventoryProvider) (q : InventoryProvider)
    → find_requested source ps ≡ some q
    → elem subscription q.subscription_ids ≡ true
    → any (was_asked source subscription) ps ≡ true
unfolding find_requested
any-find_requested source subscription [] q h e = cc
any-find_requested source subscription (p ∷ ps) q h e =
    elim (Bool-cases (p.requested && eqb p.peer_npub source)) [
      | inl b ↦
          let same : p ≡ q = some_of p q (rw (b, find_requested) at h) in
          let offered : elem subscription p.subscription_ids ≡ true =
            ap (λ x. elem subscription x.subscription_ids) same ∙ e in
          ground (arith, b, offered)
      | inr b ↦
          ground
            (arith, any-find_requested source subscription ps q (rw (b, find_requested) at h) e)
    ]

-- What an accepted answer fits: the request's kind and size, and a provider that was asked.
pub record IsAnswered (source subscription : Text) (kind bytes : ℕ) (p : PendingInventory)
    : Type 0 where
  pub same_kind : p.event_kind ≡ kind
  pub same_bytes : p.payload_bytes ≡ bytes
  pub asked : any (was_asked source subscription) (providers p) ≡ true

answers-IsAnswered :
    (source subscription : Text) (kind bytes : ℕ) (p : PendingInventory)
    → answers source subscription kind bytes p ≡ true
    → IsAnswered source subscription kind bytes p
answers-IsAnswered source subscription kind bytes p h =
    elim (Option-cases (find_requested source (providers p))) [
      | inl e ↦ absurd (ground arith)
      | inr (q, e) ↦ record {
        same_kind = ground arith;
        same_bytes = ground arith;
        asked = any-find_requested source subscription (providers p) q e (ground arith);
      }
    ]

-- If an answer is accepted for a request, the request was pending, its kind and size are the
-- answer's, and one of its providers is the answer's source, was asked, and offered the event under
-- the answer's subscription; another answer for the event, whoever sends it, finds nothing and
-- changes nothing.
pub take_matching_once :
    (id source source' subscription subscription' : Text) (kind kind' bytes bytes' : ℕ)
    (w : PendingWants) (p : PendingInventory)
    → (take_matching id source subscription kind bytes w).1 ≡ some p
    → let left = (take_matching id source subscription kind bytes w).0 in
      (get id w.entries ≡ some p)
      × IsAnswered source subscription kind bytes p
      × (take_matching id source' subscription' kind' bytes' left ≡ (left, none))
unfolding take_matching
take_matching_once id source source' subscription subscription' kind kind' bytes bytes' w p h =
    elim (Option-cases (get id w.entries)) [
      | inl e ↦ absurd (ground arith)
      | inr (q, e) ↦ elim (Bool-cases (answers source subscription kind bytes q)) [
        | inr b ↦ absurd (ground arith)
        | inl b ↦
            let same : q ≡ p = some_of q p (rw (e, b, take_matching) at h) in
            (
              rw e (ap some same),
              answers-IsAnswered source subscription kind bytes p (rw (← same) b),
              rw (e, b, take_matching) (ground (arith, get-remove id id w.entries)),
            )
      ]
    ]

-- How long a request waits for its next retry: twice as long after each, up to 32 times the delay.
abbrev waits : ℕ → PendingInventory → ℕ
waits after p = min (after * 2 ^ min p.retry_count 5) u64_max

abbrev ask_first : List InventoryProvider → List InventoryProvider
ask_first [] = []
ask_first (q ∷ qs) = record q { requested = true } ∷ qs

-- A retry: the providers turn by one, the first is asked, and the time and the count go on.
pub record IsRetry (now : ℕ) (p q : PendingInventory) : Type 0 where
  pub turned : providers q ≡ ask_first (p.alternatives ++ p.selected ∷ [])
  pub counted : q.retry_count ≡ p.retry_count + 1
  pub asked_at : q.requested_at_ms ≡ now
  pub same_kind : q.event_kind ≡ p.event_kind
  pub same_bytes : q.payload_bytes ≡ p.payload_bytes
  pub same_hops : q.hop_limit ≡ p.hop_limit

-- What a round leaves of a request, and which provider the report says to ask for its event.
pub data AfterRound (now after : ℕ)
    : Option PendingInventory → Option PendingInventory → Option InventoryProvider → Type 0 where
  absent : AfterRound now after none none none
  early :
      (p : PendingInventory)
      → now - p.requested_at_ms < waits after p
      → AfterRound now after (some p) (some p) none
  spent :
      (p : PendingInventory)
      → waits after p ≤ now - p.requested_at_ms
      → 5 ≤ p.retry_count
      → AfterRound now after (some p) none none
  again :
      (p q : PendingInventory)
      → waits after p ≤ now - p.requested_at_ms
      → p.retry_count < 5
      → IsRetry now p q
      → AfterRound now after (some p) (some q) (some q.selected)

-- The provider that a verdict says to ask.
abbrev asked_by : Verdict → Option InventoryProvider
asked_by Verdict.waiting = none
asked_by Verdict.expired = none
asked_by (Verdict.retried q) = some q.selected

ask-IsRetry : (now : ℕ) (p : PendingInventory) → IsRetry now p (ask now (rotate p))
ask-IsRetry now p = elim (List-cases p.alternatives) [
  | inl e ↦ record {
    turned = ground (arith, e);
    counted = ground (arith, e);
    asked_at = ground (arith, e);
    same_kind = ground (arith, e);
    same_bytes = ground (arith, e);
    same_hops = ground (arith, e);
  }
  | inr (q, qs, e) ↦ record {
    turned = ground (arith, e);
    counted = ground (arith, e);
    asked_at = ground (arith, e);
    same_kind = ground (arith, e);
    same_bytes = ground (arith, e);
    same_hops = ground (arith, e);
  }
]

judge-AfterRound :
    (now after : ℕ) (p : PendingInventory)
    → AfterRound now after (some p) (surviving (judge now after p) p) (asked_by (judge now after p))
unfolding judge
judge-AfterRound now after p = elim (Bool-cases (ltb (now - p.requested_at_ms) (waits after p))) [
  | inl b ↦ rw (b, judge) (AfterRound.early p (ground (arith, b)))
  | inr b ↦ elim (Bool-cases (leb 5 p.retry_count)) [
    | inl c ↦ rw (b, c, judge) (AfterRound.spent p (ground (arith, b)) (ground (arith, c)))
    | inr c ↦
        rw (b, c, judge)
          (AfterRound.again p (ask now (rotate p)) (ground (arith, b)) (ground (arith, c))
            (ask-IsRetry now p))
  ]
]

module _ (now after : ℕ) (id : Text) where
  get-report :
      (j : Text) (p : PendingInventory) (v : Verdict) (b : RetryBatch)
      → get id (report j p v b).retries ≡ elim (asked_by v) [
        | none ↦ get id b.retries
        | some q ↦ if eqb id j then some q else get id b.retries
      ]
  unfolding get
  get-report j p Verdict.waiting b = refl
  get-report j p Verdict.expired b = refl
  get-report j p (Verdict.retried q) b = refl

  get-batch-none :
      (m : Map Text PendingInventory) → get id m ≡ none → get id (batch now after m).retries ≡ none
  unfolding get batch
  get-batch-none [] h = refl
  get-batch-none ((j, p) ∷ m) h =
      ground (arith, get-report j p (judge now after p) (batch now after m), get-batch-none m)

  get-batch :
      (m : Map Text PendingInventory)
      → Distinct m
      → get id (batch now after m).retries
        ≡ elim (get id m) [ none ↦ none | some p ↦ asked_by (judge now after p) ]
  unfolding get batch
  get-batch [] d = refl
  get-batch ((j, p) ∷ m) d = ground (
    arith,
    get-report j p (judge now after p) (batch now after m),
    get-batch-none m,
    get-batch m d.1,
    d.0,
  )

-- If the requests are within their limits, a round of retries leaves alone a request that has
-- waited less than its delay, which doubles with each retry up to 32 times; takes away one that has
-- waited long enough and was retried 5 times; and else turns the providers of the request by one,
-- marks the first as asked, counts the retry and restarts the wait, and exactly then the report
-- says to ask this provider for the event.
pub retry_due-AfterRound :
    (now after : ℕ) (id : Text) (w : PendingWants)
    → IsPending w
    → let (left, report) = retry_due now after w in
      AfterRound now after (get id w.entries) (get id left.entries) (get id report.retries)
unfolding retry_due retain_entries
retry_due-AfterRound now after id w i =
    let d = i.synced.distinct in
    let kept = get-retain_map (λ p. surviving (judge now after p) p) id w.entries d in
    let listed = get-batch now after id w.entries d in
    elim (Option-cases (get id w.entries)) [
      | inl e ↦ rw (kept, listed, e) AfterRound.absent
      | inr (p, e) ↦ rw (kept, listed, e) (judge-AfterRound now after p)
    ]
