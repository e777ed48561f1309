-- ===== src/Labels/Hosts/Laws.antt =====
-- An address is shown without its port.
use openvpn_control_server.Shared.{
  ◌≡◌, ◌≢◌, refl, ap, ◌∙◌, ℕ, true, false, none, some, String, Char, code, append, is_empty,
  is_empty_iff, trim, cut-append, IsFree, after_prefix, arith,
}
use openvpn_control_server.Labels.Hosts.{
  cut_last, all_digits, is_port, has_dot, in_brackets, nonempty_host, before_port, shown, host_of,
  remote_addr_host_only_display,
}

-- The last character of a code is the one after which it does not stand again.
cut_last_free : (x : ℕ) (s : String) → IsFree x s → cut_last x s ≡ none
unfolding cut_last
cut_last_free x String.[] h = refl
cut_last_free x (String.◌∷◌ c s) h = rw (cut_last_free x s h.1) (ground arith)

cut_last-append :
    (x : ℕ) (c : Char) (a b : String)
    → code c ≡ x
    → IsFree x b
    → cut_last x (append a (String.◌∷◌ c b)) ≡ some (a, b)
unfolding cut_last
cut_last-append x c String.[] b e h = rw (cut_last_free x b h) (ground arith)
cut_last-append x c (String.◌∷◌ d a) b e h = rw (cut_last-append x c a b e h) refl

all_digits-IsFree : (s : String) → all_digits s ≡ true → IsFree 58 s
all_digits-IsFree String.[] h = tt
all_digits-IsFree (String.◌∷◌ c s) h = (ground arith, all_digits-IsFree s (ground arith))

is_port-IsFree : (s : String) → is_port s ≡ true → IsFree 58 s
is_port-IsFree s h = all_digits-IsFree s (ground arith)

no_bracket-append :
    (host t : String)
    → has_dot host ≡ true
    → after_prefix "[" host ≡ none
    → after_prefix "[" (append host t) ≡ none
unfolding after_prefix
no_bracket-append String.[] t d h = absurd (ground arith)
no_bracket-append (String.◌∷◌ c s) t d h = ground (arith, h)

host_of-port :
    (host port : String)
    → has_dot host ≡ true
    → after_prefix "[" host ≡ none
    → is_port port ≡ true
    → host_of (append host (append ":" port)) ≡ host
unfolding host_of in_brackets
host_of-port host port d b p =
    let s : String = append host (append ":" port) in
    ap (λ o. shown (in_brackets o) s) (no_bracket-append host (append ":" port) d b)
    ∙ ap (λ c. before_port c s) (cut_last-append 58 ":" host port refl (is_port-IsFree port p))
    ∙ rw (p, d) refl

host_of-brackets :
    (ip port : String)
    → ip ≢ ""
    → IsFree 93 ip
    → host_of (append "[" (append ip (append "]:" port))) ≡ ip
unfolding host_of in_brackets
host_of-brackets ip port n f =
    let s : String = append "[" (append ip (append "]:" port)) in
    let full : is_empty ip ≡ false = ground (arith, is_empty_iff ip) in
    ap (λ c. shown (nonempty_host c) s) (cut-append 93 ip "]" (append ":" port) f refl)
    ∙ rw full refl

-- An address is shown without its port of one to five digits: a host with a dot as it is, and
-- what stands in brackets without them, where no white space is around the address, the host
-- begins with no bracket, and the other is not empty and holds no closing bracket.
pub remote_addr_host_only_display-port :
    (host ip port : String)
    → has_dot host ≡ true
    → after_prefix "[" host ≡ none
    → ip ≢ ""
    → IsFree 93 ip
    → is_port port ≡ true
    → trim (append host (append ":" port)) ≡ append host (append ":" port)
    → trim (append "[" (append ip (append "]:" port))) ≡ append "[" (append ip (append "]:" port))
    → (remote_addr_host_only_display (append host (append ":" port)) ≡ host)
      × (remote_addr_host_only_display (append "[" (append ip (append "]:" port))) ≡ ip)
unfolding remote_addr_host_only_display
remote_addr_host_only_display-port host ip port d b n f p t u =
    (ap host_of t ∙ host_of-port host port d b p, ap host_of u ∙ host_of-brackets ip port n f)
