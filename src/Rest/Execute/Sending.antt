-- ===== src/Rest/Execute/Sending.antt =====
-- What of a request `execute` sends, and where.
use aegis_cpp.Common.{◌≡◌, refl, sym, ap, subst, ◌∙◌, false, ◌&&◌, ◌∷◌, ◌++◌, none, some, some_eq}
use aegis_cpp.Common.Int.{ℤ}
use aegis_cpp.Common.Text.{Text, eq_text_refl, is_empty_text}
use aegis_cpp.Rest.{RequestParams, AegisFile, RestReply}
use aegis_cpp.Rest.Execute.{
  RestController, Network, find_host, request_text, head_of_request, rest_of_request, target_host,
  execute, received,
}

-- Of a request with a file the body is not sent: requests that differ in their body alone have the same text.
pub request_text-file :
    {E : Type 0} (boundary : Text) (c : RestController E) (p : RequestParams) (f : AegisFile)
    (body : Text)
    → p.file ≡ some f
    → request_text boundary c (record p { body = body }) ≡ request_text boundary c p
request_text-file boundary c p f body h =
    ap (λ o. head_of_request c p ++ rest_of_request boundary (record p { body = body }) o) h
    ∙ sym (ap (λ o. head_of_request c p ++ rest_of_request boundary p o) h)

module _ {E : Type 0} (n : Network E) (boundary : Text) (execution_time : ℤ) where
  -- A request to a host that was not looked up before goes where its own port resolves to, and the addresses
  -- are kept.
  execute-resolve :
      (c : RestController E) (p : RequestParams) (e : E)
      → (is_empty_text c.host && is_empty_text p.host) ≡ false
      → find_host (target_host c p) c.resolver_cache ≡ none
      → n.resolve (target_host c p) p.port ≡ some e
      → execute n boundary execution_time c p
        ≡ some (
          received n boundary execution_time c.tz_bias (n.exchange e (request_text boundary c p)),
          record c { resolver_cache = (target_host c p, e) ∷ c.resolver_cache },
        )
  unfolding execute
  execute-resolve c p e named fresh found = rw (named, fresh, found) refl

  -- After a request to a host that was not looked up before, each request to the same host goes to the
  -- addresses that the port of the first one resolved to, whatever its own port.
  pub execute-cached :
      (c c' : RestController E) (p p' : RequestParams) (e : E) (r : RestReply)
      → (is_empty_text c.host && is_empty_text p.host) ≡ false
      → find_host (target_host c p) c.resolver_cache ≡ none
      → n.resolve (target_host c p) p.port ≡ some e
      → execute n boundary execution_time c p ≡ some (r, c')
      → (is_empty_text c'.host && is_empty_text p'.host) ≡ false
      → target_host c' p' ≡ target_host c p
      → execute n boundary execution_time c' p'
        ≡ some (
          received n boundary execution_time c'.tz_bias
              (n.exchange e (request_text boundary c' p')),
          c',
        )
  unfolding execute find_host
  execute-cached c c' p p' e r named fresh found first named' same =
      let kept =
        subst (λ x. find_host (target_host c p) x.1.resolver_cache ≡ some e)
          (some_eq (sym (execute-resolve c p e named fresh found) ∙ first))
          (rw (eq_text_refl (target_host c p)) refl) in
      let known = ap (λ t. find_host t c'.resolver_cache) same ∙ kept in rw (named', known) refl
