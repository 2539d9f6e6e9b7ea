-- ===== src/Rpc/Server/Publishing.antt =====
-- publish of acid/rpc/rpc_server.h: when it returns.
use acid_compute.Prelude.{
  ℕ, zero, suc, ◌≡◌, ◌↔◌, refl, sym, ◌∙◌, Bool, none, some, List, [], ◌∷◌, ◌++◌, if◌then◌else◌,
  option_clash,
}
use acid_compute.Rpc.Protocol.{Protocol, create, rpc_publish_request}
use acid_compute.Rpc.Registry.{Sent}
use acid_compute.Rpc.Server.{RpcServer, subscribers, publish_loop, publish}

module _ (connected : ℕ → Bool) where
  endless :
      (f : ℕ) (p : Protocol) (c : ℕ) (cs : List ℕ) (sent : Sent)
      → publish_loop connected f p (c ∷ cs) sent ≡ none
  unfolding publish_loop
  endless zero p c cs sent = refl
  endless (suc f) p c cs sent =
      endless f p c cs (if connected c then sent ++ ((c, p) ∷ []) else sent)

  returns_iff :
      (f : ℕ) (p : Protocol) (range : List ℕ)
      → ((sent : Sent) × (publish_loop connected (suc f) p range [] ≡ some sent)) ↔ (range ≡ [])
  unfolding publish_loop
  returns_iff f p [] = (λ r. refl, λ e. ([], refl))
  returns_iff f p (c ∷ cs) =
      (λ r. option_clash (sym (endless (suc f) p c cs []) ∙ r.1), λ e. absurd (cc e))

  -- Whatever rounds its loop is given, publish returns exactly when no session has subscribed to the key,
  -- connected or not.
  pub publish-returns_iff :
      (fuel : ℕ) (key content : List ℕ) (s : RpcServer)
      → ((sent : Sent) × (publish connected (suc fuel) key content s ≡ some sent))
        ↔ (subscribers key s.subscribes ≡ [])
  unfolding publish
  publish-returns_iff fuel key content s =
      returns_iff fuel (create rpc_publish_request content 0) (subscribers key s.subscribes)
