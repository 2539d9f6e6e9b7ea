-- ===== src/Rpc/Client/Pending.antt =====
-- The method calls that wait for their responses, acid/rpc/rpc_client.{h,cpp}.
use acid_compute.Prelude.{
  ℕ, ◌≡◌, refl, sym, ap, ◌∙◌, arith, Bool, true, false, Option, none, some, List, [], ◌∷◌, ◌++◌,
  ◌==◌, ==_iff, if◌then◌else◌, Bool-cases, option_clash, inl, inr,
}
use acid_compute.Outcome.{ok, undefined}
use acid_compute.Rpc.Protocol.{Protocol}
use acid_compute.Rpc.Client.{
  Handles, RpcClient, find_handle, emplace, added_unless, erase_handle, send, start_call, end_call,
  deliver, handle_method_response,
}

-- No id stands twice.
abbrev pub IsKeyed : Handles → Type 0
IsKeyed [] = Unit {0}
IsKeyed ((k, c) ∷ m) = (find_handle k m ≡ none) × IsKeyed m

-- What erase leaves.
pub record Erased (id : ℕ) (m n : Handles) : Type 0 where
  pub keyed : IsKeyed n
  pub others : (j : ℕ) → find_handle j n ≡ (if j == id then none else find_handle j m)

pub erase-Erased :
    (id : ℕ) (m : Handles) (c : ℕ)
    → IsKeyed m
    → find_handle id m ≡ some c
    → (n : Handles) × (erase_handle id m ≡ ok n) × Erased id m n
unfolding find_handle erase_handle
erase-Erased id [] c k h = option_clash h
erase-Erased id ((i, d) ∷ m) c k h = elim (Bool-cases (id == i)) [
  | inl e ↦
      let same : id ≡ i = (==_iff id i).0 e in
      (
        m,
        rw e refl,
        record {
          keyed = k.1;
          others = λ j. elim (Bool-cases (j == id)) [
            | inl q ↦ rw (q, (==_iff j id).0 q, same) k.0
            | inr q ↦ rw q (let r : (j == i) ≡ false = rw (sym same) q in rw r refl)
          ];
        },
      )
  | inr e ↦
      let (n, q, w) = erase-Erased id m c k.1 (rw e at h) in
      (
        (i, d) ∷ n,
        rw (e, q) refl,
        record {
          keyed = (ground (arith, w.others i, k.0), w.keyed);
          others = λ j. ground (arith, w.others j, ==_iff j i, ==_iff j id, ==_iff id i);
        },
      )
]

find-head : (id c : ℕ) (m : Handles) → find_handle id ((id, c) ∷ m) ≡ some c
unfolding find_handle
find-head id c m = rw ((==_iff id id).1 refl) refl

find-cons :
    (j id c : ℕ) (m : Handles)
    → find_handle j ((id, c) ∷ m) ≡ (if j == id then some c else find_handle j m)
unfolding find_handle
find-cons j id c m = refl

emplace-new : (id c : ℕ) (m : Handles) → find_handle id m ≡ none → emplace id c m ≡ (id, c) ∷ m
unfolding emplace
emplace-new id c m h = ap (λ o. added_unless o id c m) h

emplace-old : (id c d : ℕ) (m : Handles) → find_handle id m ≡ some d → emplace id c m ≡ m
unfolding emplace
emplace-old id c d m h = ap (λ o. added_unless o id c m) h

-- A call that was started, and a response.
pub record Routed (c started : RpcClient) (channel : ℕ) (p : Protocol) : Type 0 where
  pub keyed : IsKeyed started.response_handle
  pub waiting : find_handle c.sequence_id started.response_handle ≡ some channel
  pub answered : (handle_method_response p started).delivered ≡ (
      if p.sequence_id == c.sequence_id
      then c.delivered ++ ((channel, some p) ∷ [])
      else (handle_method_response p c).delivered)

started_handles :
    (content : List ℕ) (channel : ℕ) (c : RpcClient)
    → c.is_close ≡ false
    → ((start_call content channel c).1.response_handle
        ≡ emplace c.sequence_id channel c.response_handle)
      × ((start_call content channel c).1.delivered ≡ c.delivered)
unfolding start_call send
started_handles content channel c h = rw h (refl, refl)

delivered_if :
    (b : Bool) (channel : ℕ) (o : Option ℕ) (p : Protocol) (c d : RpcClient)
    → d.delivered ≡ c.delivered
    → (deliver (if b then some channel else o) p d).delivered
      ≡ (if b then c.delivered ++ ((channel, some p) ∷ []) else (deliver o p c).delivered)
delivered_if true channel o p c d h = ap (λ x. x ++ ((channel, some p) ∷ [])) h
delivered_if false channel none p c d h = h
delivered_if false channel (some e) p c d h = ap (λ x. x ++ ((e, some p) ∷ [])) h

-- On a client that is not closed, where no id stands twice and none waits under the next id, a call
-- takes that id and no id stands twice after it. A response with the id then goes to the channel of
-- the call, and one with another id where it went before the call.
pub start_call-Routed :
    (content : List ℕ) (channel : ℕ) (p : Protocol) (c : RpcClient)
    → c.is_close ≡ false
    → IsKeyed c.response_handle
    → find_handle c.sequence_id c.response_handle ≡ none
    → Routed c (start_call content channel c).1 channel p
unfolding handle_method_response
start_call-Routed content channel p c open_ k h =
    let d : RpcClient = (start_call content channel c).1 in
    let (e, s) = started_handles content channel c open_ in
    let m : d.response_handle ≡ (c.sequence_id, channel) ∷ c.response_handle =
      e ∙ emplace-new c.sequence_id channel c.response_handle h in
    record {
      keyed = rw m (h, k);
      waiting = rw m (find-head c.sequence_id channel c.response_handle);
      answered =
          ap (λ (n : Handles). (deliver (find_handle p.sequence_id n) p d).delivered) m
          ∙ ap (λ o. (deliver o p d).delivered)
              (find-cons p.sequence_id c.sequence_id channel c.response_handle)
          ∙ delivered_if (p.sequence_id == c.sequence_id) channel
              (find_handle p.sequence_id c.response_handle) p c d s;
    }

pub record Forgotten (id other : ℕ) (c ended : RpcClient) : Type 0 where
  pub keyed : IsKeyed ended.response_handle
  pub others :
      find_handle other ended.response_handle
      ≡ (if other == id then none else find_handle other c.response_handle)

-- On a client that is not closed, where no id stands twice, the end of a call that still waits takes out
-- its id and no other.
pub end_call-Forgets :
    (id channel other : ℕ) (c : RpcClient)
    → c.is_close ≡ false
    → IsKeyed c.response_handle
    → find_handle id c.response_handle ≡ some channel
    → (ended : RpcClient) × (end_call id c ≡ ok ended) × Forgotten id other c ended
unfolding end_call
end_call-Forgets id channel other c open_ k h =
    let (n, e, w) = erase-Erased id c.response_handle channel k h in
    (
      record c { response_handle = n },
      rw (open_, e) refl,
      record { keyed = w.keyed; others = w.others other },
    )

erase_missing : (id : ℕ) (m : Handles) → find_handle id m ≡ none → erase_handle id m ≡ undefined
unfolding find_handle erase_handle
erase_missing id [] h = refl
erase_missing id ((k, c) ∷ m) h = elim (Bool-cases (id == k)) [
  | inl e ↦ option_clash (sym (rw e at h))
  | inr e ↦ rw (e, erase_missing id m (rw e at h)) refl
]

-- On a client that is not closed, where no id stands twice, a call is started under an id with which an
-- older one still waits: the response goes to the older channel only, and when both calls have ended
-- the second one has erased an iterator that dangles.
pub calls_mixed_up :
    (content : List ℕ) (channel older : ℕ) (p : Protocol) (c : RpcClient)
    → c.is_close ≡ false
    → IsKeyed c.response_handle
    → find_handle c.sequence_id c.response_handle ≡ some older
    → p.sequence_id ≡ c.sequence_id
    → (ended : RpcClient) × ((handle_method_response p (start_call content channel c).1).delivered
        ≡ c.delivered ++ ((older, some p) ∷ []))
      × (end_call c.sequence_id (start_call content channel c).1 ≡ ok ended)
      × (end_call c.sequence_id ended ≡ undefined)
unfolding handle_method_response end_call start_call send
calls_mixed_up content channel older p c open_ k h q =
    let m : emplace c.sequence_id channel c.response_handle ≡ c.response_handle =
      emplace-old c.sequence_id channel older c.response_handle h in
    let (n, e, w) = erase-Erased c.sequence_id c.response_handle older k h in
    let gone : find_handle c.sequence_id n ≡ none =
      w.others c.sequence_id
      ∙ ap (λ b. if b then none else find_handle c.sequence_id c.response_handle)
          ((==_iff c.sequence_id c.sequence_id).1 refl) in
    (
      record (start_call content channel c).1 { response_handle = n },
      rw (open_, m, q, h) refl,
      rw (open_, m, e) refl,
      rw (open_, erase_missing c.sequence_id n gone) refl,
    )
