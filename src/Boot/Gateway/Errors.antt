-- ===== src/Boot/Gateway/Errors.antt =====
-- Of the error handler of boot/gw_server_options.go: what the client is sent.
use rk_grpc.Prelude.{
  ℕ, Option, none, String, ◌≡◌, refl, ap, sym, ◌∙◌, ◌≢◌, some, List, [], ◌∷◌, ◌++◌, append-nil,
  append_assoc, str_eq, eq_iff, if◌then◌else◌, if_cases, arith,
}
use rk_grpc.Middleware.Address.{values_of}
use rk_grpc.Boot.HttpHeader.{Header, put_values, add_value, set_value, del_values}
use rk_grpc.Boot.HttpHeader.Values.{values_of-put_values}
use rk_grpc.Boot.Gateway.{
  HttpLibraries, ResponseWriter, Failure, write_header, outgoing_header_matcher, add_all,
  add_outgoing, announce_trailers, wants_trailers, http_error_handler, trailer_name,
}

module _ (H : HttpLibraries) where
  -- The values that the metadata has for a canonical name, in its order.
  abbrev pub values_for : String → List (String × List String) → List String
  values_for c [] = []
  values_for c ((k, vs) ∷ md) =
      let rest = values_for c md in if str_eq (H.canonical k) c then vs ++ rest else rest

  values_of-add_all :
      (c k : String) (vs : List String) (h : Header)
      → values_of c (add_all H k vs h)
        ≡ (if str_eq (H.canonical k) c then values_of c h ++ vs else values_of c h)
  unfolding add_all add_value
  values_of-add_all c k [] h = ground (arith, append-nil (values_of c h))
  values_of-add_all c k (v ∷ vs) h =
      let put = values_of-put_values c (H.canonical k) (λ (old : List String). old ++ v ∷ []) h in
      let ih = values_of-add_all c k vs (add_value H.canonical k v h) in
      ground (arith, append_assoc (values_of c h) (v ∷ []) vs)

  values_of-add_outgoing :
      (c : String) (md : List (String × List String)) (h : Header)
      → values_of c (add_outgoing H md h) ≡ values_of c h ++ values_for c md
  unfolding add_outgoing outgoing_header_matcher
  values_of-add_outgoing c [] h = sym (append-nil (values_of c h))
  values_of-add_outgoing c ((k, vs) ∷ md) h =
      let ih = values_of-add_outgoing c md (add_all H k vs h) in
      let added = values_of-add_all c k vs h in
      ground (arith, append_assoc (values_of c h) vs (values_for c md))

  values_of-other :
      (c k : String) (g : List String → List String) (h : Header)
      → k ≢ c
      → values_of c (put_values k g h) ≡ values_of c h
  values_of-other c k g h other =
      let put = values_of-put_values c k g h in let unlike = eq_iff k c in ground arith

  values_of-add_other :
      (c k v : String) (h : Header)
      → H.canonical k ≢ c
      → values_of c (add_value H.canonical k v h) ≡ values_of c h
  unfolding add_value
  values_of-add_other c k v h =
      values_of-other c (H.canonical k) (λ (vs : List String). vs ++ v ∷ []) h

  values_of-set_other :
      (c k v : String) (h : Header)
      → H.canonical k ≢ c
      → values_of c (set_value H.canonical k v h) ≡ values_of c h
  unfolding set_value
  values_of-set_other c k v h = values_of-other c (H.canonical k) (λ (vs : List String). v ∷ []) h

  values_of-del_other :
      (c k : String) (h : Header)
      → H.canonical k ≢ c
      → values_of c (del_values H.canonical k h) ≡ values_of c h
  unfolding del_values
  values_of-del_other c k h = values_of-other c (H.canonical k) (λ (vs : List String). []) h

  values_of-announce_trailers :
      (c : String) (md : List (String × List String)) (h : Header)
      → H.canonical "Trailer" ≢ c
      → values_of c (announce_trailers H md h) ≡ values_of c h
  unfolding announce_trailers
  values_of-announce_trailers c [] h other = refl
  values_of-announce_trailers c ((k, vs) ∷ md) h other =
      let announced = H.canonical (trailer_name H k) in
      values_of-announce_trailers c md (add_value H.canonical "Trailer" announced h) other
      ∙ values_of-add_other c "Trailer" announced h other

  -- The status and the header that are sent when a response is written with these.
  abbrev pub sent_after : Option (ℕ × Header) → ℕ → Header → ℕ × Header
  sent_after none status header = (status, header)
  sent_after (some sent) status header = sent

  sent-write_header :
      (status : ℕ) (header : Header) (body : List String) (sent : Option (ℕ × Header))
      → (write_header status (record { header = header; sent = sent; body = body })).sent
        ≡ some (sent_after sent status header)
  unfolding write_header
  sent-write_header status header body none = refl
  sent-write_header status header body (some sent) = refl

  -- The client is sent what the writer has sent already; otherwise the status that the error is
  -- mapped to, with a header that has, for every name but Content-Type, Trailer and
  -- Transfer-Encoding, the values that the writer had for it and then those of the server's header
  -- metadata, all of them and in their order. The body that the error is mapped to is written behind
  -- what is written already.
  pub http_error_handler-sends :
      (te c : String) (f : Failure H.Detail) (w : ResponseWriter)
      → H.canonical "Content-Type" ≢ c
      → H.canonical "Trailer" ≢ c
      → H.canonical "Transfer-Encoding" ≢ c
      → (header : Header) × ((http_error_handler H te f w).sent
          ≡ some (sent_after w.sent (H.http_status f.code) header))
        × (values_of c header ≡ values_of c w.header ++ values_for c f.header_md)
        × ((http_error_handler H te f w).body
            ≡ w.body ++ H.error_body (H.http_status f.code) f.message f.details ∷ [])
  unfolding http_error_handler
  http_error_handler-sends te c f w type trailer encoding =
      let cleared =
        del_values H.canonical "Transfer-Encoding" (del_values H.canonical "Trailer" w.header) in
      let typed =
        set_value H.canonical "Content-Type" (H.content_type f.code f.message f.details) cleared in
      let before : values_of c typed ≡ values_of c w.header =
        values_of-set_other c "Content-Type" (H.content_type f.code f.message f.details) cleared
          type
        ∙ values_of-del_other c "Transfer-Encoding" (del_values H.canonical "Trailer" w.header)
            encoding
        ∙ values_of-del_other c "Trailer" w.header trailer in
      let outgoing = add_outgoing H f.header_md typed in
      let added : values_of c outgoing ≡ values_of c w.header ++ values_for c f.header_md =
        values_of-add_outgoing c f.header_md typed
        ∙ ap (λ (vs : List String). vs ++ values_for c f.header_md) before in
      (
        _,
        sent-write_header (H.http_status f.code) _ w.body w.sent,
        if_cases (λ (h : Header). values_of c h ≡ values_of c w.header ++ values_for c f.header_md)
            (wants_trailers H te)
            (λ wanted.
              values_of-set_other c "Transfer-Encoding" "chunked"
                (announce_trailers H f.trailer_md outgoing) encoding
              ∙ values_of-announce_trailers c f.trailer_md outgoing trailer
              ∙ added)
            (λ unwanted. added),
        refl,
      )
