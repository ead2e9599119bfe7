-- ===== src/Http/Protocol/Tests.antt =====
-- Runs of the protocol's tables.
use cornet.Base.{◌≡◌, refl, true, ◌&&◌, codes, not}
use cornet.Http.Protocol.{
  Method, method_is_idempotent, status_is_informational, status_forbids_body, status_map, find_row,
  phrase_of, reason_phrase,
}

idempotent_methods :
    (method_is_idempotent Method.get
      && method_is_idempotent Method.put
      && method_is_idempotent Method.trace
      && not (method_is_idempotent Method.post)
      && not (method_is_idempotent Method.patch))
    ≡ true
unfolding method_is_idempotent
idempotent_methods = refl

bodiless :
    (status_is_informational 100
      && not (status_is_informational 200)
      && status_forbids_body 199
      && status_forbids_body 204
      && status_forbids_body 304
      && not (status_forbids_body 200))
    ≡ true
unfolding status_is_informational status_forbids_body
bodiless = refl

reasons : reason_phrase 418 ≡ codes "Unknown"
unfolding reason_phrase phrase_of find_row status_map
reasons = refl
