-- ===== src/Capability/Amounts.antt =====
-- The lifetimes and the bounds that capabilities may have, in the numbers themselves.
use brezel.Common.{
  ℕ, ◌+◌, ◌^◌, ◌≤◌, ◌<◌, ◌≡◌, ◌↔◌, refl, sym, subst, Bool, true, false, not, ◌||◌, arith, ◌==◌,
  nat_eq, if_cases, ℤ, pos, negsuc, int_lt, int_beq, int64_sub, wrap_int64, Text, text_eq,
  text_beq_iff,
}
use brezel.Capability.{
  CapabilityBounds, CapabilityClaims, run_command, read_file, write_file, proxy_port, web_socket,
  max_operation_millis, max_capability_bytes, max_capability_ttl,
}
use brezel.Capability.Claims.{valid_lifetime, bounds_fit, out_of_range}

-- The range of the Go type, above
abbrev pub BelowMax : ℤ → Type 0
BelowMax (pos n) = n < 2 ^ 63
BelowMax (negsuc n) = Unit

-- The claims live from `not_before`, which is not before their issue, for at most thirty seconds
-- after it.
pub record Lifetime (c : CapabilityClaims) : Type 0 where
  pub issued : ℕ
  pub start : ℕ
  pub end : ℕ
  pub issued_at : c.issued_at ≡ pos issued
  pub not_before : c.not_before ≡ pos start
  pub expires_at : c.expires_at ≡ pos end
  pub positive : 0 < issued
  pub opens : issued ≤ start
  pub closes : start < end
  pub short : end ≤ issued + max_capability_ttl

test : ℤ → ℤ → ℤ → Bool
test i n x = not (
    not (int_lt (pos 0) i)
    || (int_lt n i || (not (int_lt n x) || int_lt (pos max_capability_ttl) (int64_sub x i))))

lifetime_lem :
    (i n x : ℤ)
    → BelowMax x
    → test i n x ≡ true
    → (a : ℕ) × (b : ℕ) × (c : ℕ) × (i ≡ pos a)
      × (n ≡ pos b)
      × (x ≡ pos c)
      × (0 < a)
      × (a ≤ b)
      × (b < c)
      × (c ≤ a + max_capability_ttl)
unfolding test int_lt int64_sub wrap_int64
lifetime_lem (pos a) (pos b) (pos c) m h =
    (a, b, c, refl, refl, refl, ground arith, ground arith, ground arith, ground arith)
lifetime_lem (pos a) (pos b) (negsuc c) m h = ground arith
lifetime_lem (pos a) (negsuc b) x m h = ground arith
lifetime_lem (negsuc a) n x m h = ground arith

lifetime_holds :
    (a b c : ℕ)
    → 0 < a
    → a ≤ b
    → b < c
    → c ≤ a + max_capability_ttl
    → c < 2 ^ 63
    → test (pos a) (pos b) (pos c) ≡ true
unfolding test int_lt int64_sub wrap_int64
lifetime_holds a b c p q r s m = ground arith

pub valid_lifetime-Lifetime :
    (c : CapabilityClaims) → BelowMax c.expires_at → (valid_lifetime c ≡ true) ↔ Lifetime c
unfolding test valid_lifetime
valid_lifetime-Lifetime c m = (
  λ h.
      let l = lifetime_lem c.issued_at c.not_before c.expires_at m h in
      record {
        issued = l.0;
        start = l.1;
        end = l.2;
        issued_at = l.3;
        not_before = l.4;
        expires_at = l.5;
        positive = l.6;
        opens = l.7;
        closes = l.8;
        short = l.9;
      },
  λ l.
      subst (λ i. test i c.not_before c.expires_at ≡ true) (sym l.issued_at)
        (subst (λ n. test (pos l.issued) n c.expires_at ≡ true) (sym l.not_before)
          (subst (λ x. test (pos l.issued) (pos l.start) x ≡ true) (sym l.expires_at)
            (lifetime_holds l.issued l.start l.end l.positive l.opens l.closes l.short
              (subst BelowMax l.expires_at m)))),
)

-- The amounts that the bounds of an operation allow: a number for each, within its limit.
pub record Amounts (b : CapabilityBounds) : Type 0 where
  pub duration : ℕ
  pub request : ℕ
  pub response : ℕ
  pub max_duration_millis : b.max_duration_millis ≡ pos duration
  pub max_request_bytes : b.max_request_bytes ≡ pos request
  pub max_response_bytes : b.max_response_bytes ≡ pos response
  pub duration_fits : duration ≤ max_operation_millis
  pub request_fits : request ≤ max_capability_bytes
  pub response_fits : response ≤ max_capability_bytes
  pub port_fits : b.port ≤ 65535

-- Which of the amounts an operation has; the rest are zero.
pub data Uses (op : Text) (d q p port : ℕ) : Type 0 where
  command : op ≡ run_command → 0 < d → q ≡ 0 → 0 < p → port ≡ 0 → Uses op d q p port
  reads : op ≡ read_file → d ≡ 0 → q ≡ 0 → 0 < p → port ≡ 0 → Uses op d q p port
  writes : op ≡ write_file → d ≡ 0 → 0 < q → p ≡ 0 → port ≡ 0 → Uses op d q p port
  proxies : op ≡ proxy_port → 0 < d → 0 < q → 0 < p → 0 < port → Uses op d q p port
  tunnels : op ≡ web_socket → 0 < d → 0 < q → 0 < p → 0 < port → Uses op d q p port

pub amounts_lem :
    (d q p : ℤ) (port : ℕ)
    → out_of_range (record {
      max_duration_millis = d;
      max_request_bytes = q;
      max_response_bytes = p;
      port = port;
    })
      ≡ false
    → (a : ℕ) × (b : ℕ) × (c : ℕ) × (d ≡ pos a)
      × (q ≡ pos b)
      × (p ≡ pos c)
      × (a ≤ max_operation_millis)
      × (b ≤ max_capability_bytes)
      × (c ≤ max_capability_bytes)
      × (port ≤ 65535)
unfolding out_of_range int_lt
amounts_lem (pos a) (pos b) (pos c) port h =
    (a, b, c, refl, refl, refl, ground arith, ground arith, ground arith, ground arith)
amounts_lem (pos a) (pos b) (negsuc c) port h = ground arith
amounts_lem (pos a) (negsuc b) p port h = ground arith
amounts_lem (negsuc a) q p port h = ground arith

pub permits :
    (op : Text) (d q p port : ℕ)
    → bounds_fit op (record {
      max_duration_millis = pos d;
      max_request_bytes = pos q;
      max_response_bytes = pos p;
      port = port;
    })
      ≡ true
    → Uses op d q p port
unfolding bounds_fit int_beq
permits op d q p port =
    if_cases Fits (op == run_command) _ _
      (λ e h.
        command ((text_beq_iff op run_command).0 e) (ground arith) (ground arith) (ground arith)
          (ground arith))
      (λ e.
        if_cases Fits (op == read_file) _ _
          (λ e h.
            reads ((text_beq_iff op read_file).0 e) (ground arith) (ground arith) (ground arith)
              (ground arith))
          (λ e.
            if_cases Fits (op == write_file) _ _
              (λ e h.
                writes ((text_beq_iff op write_file).0 e) (ground arith) (ground arith)
                  (ground arith) (ground arith))
              (λ e.
                if_cases Fits (op == proxy_port) _ _
                  (λ e h.
                    proxies ((text_beq_iff op proxy_port).0 e) (ground arith) (ground arith)
                      (ground arith) (ground arith))
                  (λ e.
                    if_cases Fits (op == web_socket) _ _
                      (λ e h.
                        tunnels ((text_beq_iff op web_socket).0 e) (ground arith) (ground arith)
                          (ground arith) (ground arith))
                      (λ e h. cc)))))
  where
    Fits : Bool → Type 0
    Fits out = out ≡ true → Uses op d q p port
