-- ===== src/Generator/Keys/Patterns.antt =====
-- The regular expressions of shorthand.go and networkpolicies_shorthand.go.
use bigbang_operator.Regexp.{Regexp, seq, alt, star, opt, plus, text, digit, name_char, word_char}

-- `((tcp|udp)://)?`
unfoldable pub scheme : Regexp
unfolding text
scheme = opt (seq (alt (text "tcp") (text "udp")) (text "://"))

-- `[A-Za-z0-9-]+|\*`
unfoldable pub name_or_star : Regexp
unfolding text
name_or_star = alt (plus name_char) (text "*")

-- `\d+-\d+`
unfoldable pub range : Regexp
unfolding text
range = seq (plus digit) (seq (text "-") (plus digit))

-- `\[?\d+(,\d+)*\]?`
unfoldable pub list : Regexp
unfolding text
list =
    seq (opt (text "["))
      (seq (plus digit) (seq (star (seq (text ",") (plus digit))) (opt (text "]"))))

-- `(:(\d+|\d+-\d+|\[?\d+(,\d+)*\]?))?`
unfoldable pub ports : Regexp
unfolding text range list
ports = opt (seq (text ":") (alt (plus digit) (alt range list)))

-- `(\d+\.){3}\d+/\d+`
unfoldable pub cidr : Regexp
unfolding text
cidr =
    let octet = seq (plus digit) (text ".") in
    seq octet (seq octet (seq octet (seq (plus digit) (seq (text "/") (plus digit)))))

unfoldable pub egress_remote_key_re : Regexp
unfolding text scheme name_or_star ports
egress_remote_key_re = seq scheme (seq name_or_star (seq (opt (seq (text "/") name_or_star)) ports))

unfoldable pub ingress_remote_key_re : Regexp
unfolding text name_or_star
ingress_remote_key_re =
    seq (opt (seq (plus name_char) (text "@")))
      (seq name_or_star (opt (seq (text "/") name_or_star)))

-- The alternatives of the ports stand in another order here, which does not change the language.
unfoldable pub ingress_local_key_re : Regexp
unfolding text scheme range list
ingress_local_key_re =
    seq scheme (seq (plus word_char) (opt (seq (text ":") (alt list (alt (plus digit) range)))))

unfoldable pub egress_cidr_key_re : Regexp
unfolding text scheme ports cidr
egress_cidr_key_re = seq scheme (seq cidr ports)

unfoldable pub ingress_cidr_key_re : Regexp
unfolding text cidr
ingress_cidr_key_re = cidr

-- `^[A-Za-z0-9-]+$`
unfoldable pub literal_rule_key_re : Regexp
literal_rule_key_re = plus name_char
