-- ===== src/Dnsmasq/Text.antt =====
-- The whole dnsmasq file is read back from its text.
use openvpn_control_server.Shared.{
  ◌≡◌, refl, ap, subst, ◌∙◌, ℕ, suc, true, false, List, [], ◌∷◌, String, Char, code, append, map,
  trim, trim-append, is_empty, is_space, nonempty_only, join, split_on, split_on_free,
  split_on-append, IsFree, IsFree-append, decimal, arith, eqb_iff,
}
use openvpn_control_server.ConfigDiff.{replace_crlf}
use openvpn_control_server.Dnsmasq.{
  DnsRow, DnsRule, domain_resolver, cache, ip_override, arbitrary_address, forward, hosts_file,
  listen_interface, other, has_no_line_end, parse_lines, lines_of, parse_dnsmasq_config_to_draft,
  build_dnsmasq_text_from_draft,
}
use openvpn_control_server.Dnsmasq.RoundTrip.{
  IsTold, IsValue, told_line, line_of-told, parse_line-told,
}

-- A line of a file: it has no line end, is trimmed and is not empty.
abbrev IsLine : String → Type 0
IsLine l = IsFree 10 l × IsFree 13 l × (trim l ≡ l) × (is_empty l ≡ false)

abbrev pub AllTold : List DnsRow → Type 0
AllTold [] = Unit
AllTold (row ∷ rows) = IsTold row.rule × AllTold rows

abbrev AllLines : List String → Type 0
AllLines [] = Unit
AllLines (l ∷ ls) = IsLine l × AllLines ls

abbrev told_lines : List DnsRow → List String
told_lines [] = []
told_lines (row ∷ rows) = told_line row.rule ∷ told_lines rows

-- The rows with the ids that the reading gives.
unfoldable pub renumber : ℕ → List DnsRow → List DnsRow
unfolding decimal
renumber seq [] = []
renumber seq (row ∷ rows) =
    record { id = append "dns-" (decimal seq); rule = row.rule } ∷ renumber (suc seq) rows

IsFree-of_line_end : (s : String) → has_no_line_end s ≡ true → IsFree 10 s × IsFree 13 s
unfolding has_no_line_end
IsFree-of_line_end String.[] h = (tt, tt)
IsFree-of_line_end (String.◌∷◌ c s) h =
    let rest : IsFree 10 s × IsFree 13 s = IsFree-of_line_end s (ground arith) in
    ((ground (arith, eqb_iff (code c) 10), rest.0), (ground (arith, eqb_iff (code c) 13), rest.1))

value-IsFree : (s : String) → IsValue s → IsFree 10 s × IsFree 13 s
value-IsFree s h = IsFree-of_line_end s (ground arith)

value_nonempty : (s : String) → IsValue s → is_empty s ≡ false
value_nonempty s h = ground arith

-- A line that begins with a directive's name and ends with a value.
IsLine-append :
    (c : Char) (p s : String)
    → is_space (code c) ≡ false
    → IsFree 10 (String.◌∷◌ c p)
    → IsFree 13 (String.◌∷◌ c p)
    → IsValue s
    → IsLine (String.◌∷◌ c (append p s))
IsLine-append c p s solid h k v =
    let free : IsFree 10 s × IsFree 13 s = value-IsFree s v in
    (
      (h.0, IsFree-append 10 p s h.1 free.0),
      (k.0, IsFree-append 13 p s k.1 free.1),
      trim-append c p s solid v.0 (value_nonempty s v),
      refl,
    )

append-append : (s t u : String) → append (append s t) u ≡ append s (append t u)
append-append String.[] t u = refl
append-append (String.◌∷◌ c s) t u = ap (λ x. String.◌∷◌ c x) (append-append s t u)

-- A line that begins with a directive's name and has two values with a slash between them.
IsLine-pair :
    (c : Char) (p a b : String)
    → is_space (code c) ≡ false
    → IsFree 10 (String.◌∷◌ c p)
    → IsFree 13 (String.◌∷◌ c p)
    → IsValue a
    → IsValue b
    → IsLine (String.◌∷◌ c (append p (append a (append "/" b))))
IsLine-pair c p a b solid h k v w =
    let free : IsFree 10 a × IsFree 13 a = value-IsFree a v in
    let slash : append (append p (append a "/")) b ≡ append p (append a (append "/" b)) =
      append-append p (append a "/") b ∙ ap (append p) (append-append a "/" b) in
    subst (λ x. IsLine (String.◌∷◌ c x)) slash
      (IsLine-append c (append p (append a "/")) b solid
        (h.0, IsFree-append 10 p (append a "/") h.1 (IsFree-append 10 a "/" free.0 (ground arith)))
        (k.0, IsFree-append 13 p (append a "/") k.1 (IsFree-append 13 a "/" free.1 (ground arith)))
        w)

replace_crlf_free : (s : String) → IsFree 13 s → replace_crlf s ≡ s
unfolding replace_crlf
replace_crlf_free String.[] h = refl
replace_crlf_free (String.◌∷◌ c String.[]) h = refl
replace_crlf_free (String.◌∷◌ c (String.◌∷◌ d s)) h =
    rw (replace_crlf_free (String.◌∷◌ d s) h.1) (ground (arith, eqb_iff (code c) 13))

join-IsFree : (ls : List String) → AllLines ls → IsFree 13 (join "\n" ls)
unfolding join
join-IsFree [] h = tt
join-IsFree (l ∷ []) h = h.0.1
join-IsFree (l ∷ k ∷ ls) h =
    IsFree-append 13 l (append "\n" (join "\n" (k ∷ ls))) h.0.1
      ((ground arith), join-IsFree (k ∷ ls) h.1)

lines-join :
    (l : String) (ls : List String) → AllLines (l ∷ ls) → split_on 10 (join "\n" (l ∷ ls)) ≡ l ∷ ls
unfolding join
lines-join l [] h = split_on_free 10 l h.0.0
lines-join l (k ∷ ls) h =
    split_on-append 10 l "\n" (join "\n" (k ∷ ls)) h.0.0 refl
    ∙ ap (λ x. l ∷ x) (lines-join k ls h.1)

nonempty_only-lines : (ls : List String) → AllLines ls → nonempty_only (map trim ls) ≡ ls
nonempty_only-lines [] h = refl
nonempty_only-lines (l ∷ ls) h = rw (h.0.2, h.0.3, nonempty_only-lines ls h.1)

read_lines :
    (ls : List String)
    → AllLines ls
    → nonempty_only (map trim (split_on 10 (replace_crlf (join "\n" ls)))) ≡ ls
read_lines [] h = unfold join replace_crlf split_on trim in refl
read_lines (l ∷ ls) h =
    rw (replace_crlf_free (join "\n" (l ∷ ls)) (join-IsFree (l ∷ ls) h), lines-join l ls h)
      (nonempty_only-lines (l ∷ ls) h)

IsLine-told : (r : DnsRule) → IsTold r → IsLine (told_line r)
unfolding is_space
IsLine-told (domain_resolver domain target_dns) h =
    IsLine-pair "s" "erver=/" domain target_dns refl (ground arith) (ground arith) h.0.0 h.1
IsLine-told (cache cache_size) h =
    IsLine-append "c" "ache-size=" cache_size refl (ground arith) (ground arith) h
IsLine-told (ip_override domain ip) h =
    IsLine-pair "a" "ddress=/" domain ip refl (ground arith) (ground arith) h.0.0 h.1
IsLine-told (arbitrary_address ip) h =
    IsLine-append "a" "ddress=/#/" ip refl (ground arith) (ground arith) h
IsLine-told (forward target_dns) h =
    IsLine-append "s" "erver=" target_dns refl (ground arith) (ground arith) h.0
IsLine-told (hosts_file path) h =
    IsLine-append "a" "ddn-hosts=" path refl (ground arith) (ground arith) h
IsLine-told (listen_interface iface) h =
    IsLine-append "i" "nterface=" iface refl (ground arith) (ground arith) h
IsLine-told (other type) h = absurd h

AllLines-told : (draft : List DnsRow) → AllTold draft → AllLines (told_lines draft)
AllLines-told [] h = tt
AllLines-told (row ∷ rows) h = (IsLine-told row.rule h.0, AllLines-told rows h.1)

lines_of-told : (draft : List DnsRow) → AllTold draft → lines_of draft ≡ told_lines draft
unfolding lines_of
lines_of-told [] h = refl
lines_of-told (row ∷ rows) h = rw (line_of-told row.rule h.0, lines_of-told rows h.1)

parse_lines-told :
    (seq : ℕ) (draft : List DnsRow)
    → AllTold draft
    → parse_lines seq (told_lines draft) ≡ renumber seq draft
unfolding parse_lines renumber
parse_lines-told seq [] h = refl
parse_lines-told seq (row ∷ rows) h =
    rw (parse_lines, parse_line-told row.rule h.0, parse_lines-told (suc seq) rows h.1)

-- A draft whose rules can all be told by a line (their values are not empty, trimmed and on one
-- line, a domain has no slash and is not "#" in an override, the target of a forward does not
-- begin with a slash, and the type is known) is read from its text again, with the same rules in
-- the same order under new ids.
pub build_dnsmasq_text-parse :
    (draft : List DnsRow)
    → AllTold draft
    → parse_dnsmasq_config_to_draft (build_dnsmasq_text_from_draft draft) ≡ renumber 1 draft
unfolding parse_dnsmasq_config_to_draft build_dnsmasq_text_from_draft
build_dnsmasq_text-parse draft h =
    rw (lines_of-told draft h, read_lines (told_lines draft) (AllLines-told draft h))
      (parse_lines-told 1 draft h)
