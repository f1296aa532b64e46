-- ===== src/Server/Response.antt =====
-- internal/server/server.go: the headers and the body of an upstream's response, as the client gets
-- them. A header has its canonical name; a write that the client refuses ends the copy.
use llm_pico.Common.{
  List, [], ◌∷◌, Bool, if◌then◌else◌, ◌++◌, ◌||◌, ◌≡◌, true, ◌∙◌, if-split, false, refl,
}
use llm_pico.Common.Bytes.{Bytes, bytes_eq, assign, codes, bytes_eq→eq}
use mathlib.Core.Path.{subst}

unfoldable pub is_hop_header : Bytes → Bool
is_hop_header name =
    bytes_eq name (codes "Connection")
    || bytes_eq name (codes "Content-Length")
    || bytes_eq name (codes "Keep-Alive")
    || bytes_eq name (codes "Proxy-Authenticate")
    || bytes_eq name (codes "Proxy-Authorization")
    || bytes_eq name (codes "Te")
    || bytes_eq name (codes "Trailer")
    || bytes_eq name (codes "Transfer-Encoding")
    || bytes_eq name (codes "Upgrade")

-- `copyResponseHeaders`: each value is added to those that the response has.
unfoldable pub copy_response_headers :
    (Bytes → List Bytes) → List (Bytes × List Bytes) → Bytes → List Bytes
copy_response_headers dst [] = dst
copy_response_headers dst ((name, values) ∷ rest) =
    copy_response_headers (if is_hop_header name then dst else assign dst name (dst name ++ values))
      rest

-- `copyBody`, on what the reads yield, by whether the client takes a write.
unfoldable pub copy_body : (List Bytes → Bool) → List Bytes → List Bytes → List Bytes
copy_body takes out [] = out
copy_body takes out (chunk ∷ chunks) =
    let rest = copy_body takes (out ++ chunk ∷ []) chunks in
    let skipped = copy_body takes out chunks in
    if bytes_eq chunk [] then skipped else if takes (out ++ chunk ∷ []) then rest else out

-- What copies leave of a header that is not passed on is what the response had of it.
copy_response_headers-hop :
    (dst : Bytes → List Bytes) (src : List (Bytes × List Bytes)) (name : Bytes)
    → is_hop_header name ≡ true
    → copy_response_headers dst src name ≡ dst name
unfolding copy_response_headers assign
copy_response_headers-hop dst [] name h = refl
copy_response_headers-hop dst ((other, values) ∷ rest) name h =
    copy_response_headers-hop
      (if is_hop_header other then dst else assign dst other (dst other ++ values)) rest name h
    ∙ if-split (λ (d : Bytes → List Bytes). d name ≡ dst name) (is_hop_header other) (λ e. refl)
        (λ e.
          if-split (λ (vs : List Bytes). vs ≡ dst name) (bytes_eq other name)
            (λ same.
              let equal : other ≡ name = bytes_eq→eq other name same in
              let passed : is_hop_header name ≡ false =
                subst (λ (n : Bytes). is_hop_header n ≡ false) equal e in
              absurd (cc))
            (λ differs. refl))
