-- ===== src/Mail.antt =====
-- internal/notify/mailer.go: the mails. The servers that deliver them are not code of this
-- repository: what they answer is a parameter.
pub mod Messages
pub mod Escape
pub mod Headers
use proindustrial_backend.Common.{
  Bool, List, Option, String, [], false, if◌then◌else◌, leb, ltb, nat_eq, none, some, string_eq,
  text_eq, true, ℕ, ◌!=◌, ◌&&◌, ◌++◌, ◌==◌, ◌||◌, ◌∷◌,
}
use proindustrial_backend.Common.Text.{Text, codes}
use proindustrial_backend.Settings.{Config}
use proindustrial_backend.Slug.{decimal}

pub record DeliveryResult : Type 0 where
  pub status : Text
  pub note : Text

-- `strings.ReplaceAll` of one character.
unfoldable pub replace_all : ℕ → Text → Text → Text
replace_all c by [] = []
replace_all c by (x ∷ s) = if x == c then by ++ replace_all c by s else x ∷ replace_all c by s

-- `sanitizeHeader`: the replacer reads each character once.
abbrev pub clean_header : ℕ → ℕ
clean_header c = if c == 13 then b' ' else if c == 10 then b' ' else c

unfoldable pub sanitize_header : Text → Text
sanitize_header [] = []
sanitize_header (c ∷ s) = clean_header c ∷ sanitize_header s

-- `textToHTML`
unfoldable pub escape : Text → Text
escape s = replace_all 10 (codes "<br />") (
    replace_all b'>' (codes "&gt;")
      (replace_all b'<' (codes "&lt;") (replace_all b'&' (codes "&amp;") s)))

unfoldable pub text_to_html : Text → Text
text_to_html s = codes "<p>" ++ escape s ++ codes "</p>"

-- The lines of a text, each but the last followed by a newline.
abbrev pub lines : List Text → Text
lines [] = []
lines (l ∷ []) = l
lines (l ∷ m ∷ ls) = l ++ (10 ∷ lines (m ∷ ls))

-- A line of the message that is sent.
abbrev pub line : Text → Text
line s = s ++ (13 ∷ 10 ∷ [])

abbrev pub text_of : List Text → Text
text_of [] = []
text_of (l ∷ ls) = line l ++ text_of ls

-- The headers, and the empty line behind them.
unfoldable pub mail_head : Text → Text → Text → Text
mail_head from to subject = text_of (
    (codes "From: " ++ sanitize_header from)
    ∷ (codes "To: " ++ sanitize_header to)
    ∷ (codes "Subject: " ++ sanitize_header subject)
    ∷ codes "MIME-Version: 1.0"
    ∷ codes "Content-Type: text/plain; charset=UTF-8"
    ∷ []
    ∷ [])

-- `raw`
unfoldable pub raw_mail : Text → Text → Text → Text → Text
raw_mail from to subject body = mail_head from to subject ++ line body

-- The commands of the client of `net/smtp`, in the order that they are sent.
pub data SmtpStep : Type 0 where
  dial dial_tls new_client start_tls authenticate : SmtpStep
  mail_from rcpt : Text → SmtpStep
  data_command : SmtpStep
  write_data : Text → SmtpStep
  close_data quit : SmtpStep

abbrev pub when : {A : Type 0} → Bool → A → List A
when true a = a ∷ []
when false a = []

-- The connection: TLS at once on port 465, and elsewhere where the server offers it.
abbrev pub connection_steps : Config → Bool → List SmtpStep
connection_steps cfg offers_tls =
    if cfg.smtp_port == "465"
    then dial_tls ∷ new_client ∷ []
    else dial ∷ new_client ∷ when offers_tls start_tls

unfoldable pub smtp_steps : Config → Bool → Text → Text → Text → List SmtpStep
smtp_steps cfg offers_tls to subject body =
    connection_steps cfg offers_tls
    ++ when (cfg.smtp_user != "") authenticate
    ++ (mail_from (codes cfg.smtp_from)
        ∷ rcpt to
        ∷ data_command
        ∷ write_data (raw_mail (codes cfg.smtp_from) to subject body)
        ∷ close_data
        ∷ quit
        ∷ [])

-- The steps that are taken, and the one that fails, where one does: nothing follows it.
unfoldable pub run_steps : (SmtpStep → Bool) → List SmtpStep → List SmtpStep × Option SmtpStep
run_steps accepts [] = ([], none)
run_steps accepts (s ∷ ss) =
    let (taken, failed) = run_steps accepts ss in
    if accepts s then (s ∷ taken, failed) else (s ∷ [], some s)

-- `smtpSend`
unfoldable pub smtp_send :
    (SmtpStep → Bool) → Bool → Config → Text → Text → Text → List SmtpStep × Option SmtpStep
smtp_send accepts offers_tls cfg to subject body =
    run_steps accepts (smtp_steps cfg offers_tls to subject body)

pub record ResendPayload : Type 0 where
  pub from : Text
  pub to : Text
  pub subject : Text
  pub html : Text
  pub text_body : Text

-- What comes of a request to Resend: the message of an error, or the status of the response.
pub data ResendAnswer : Type 0 where
  not_serialized not_created not_sent : Text → ResendAnswer
  responded : ℕ → ResendAnswer

-- A post with the key of the configuration.
abbrev pub Resend : Type 0
Resend = String → ResendPayload → ResendAnswer

abbrev pub failed : Text → DeliveryResult
failed note = record { status = codes "failed"; note = note }

abbrev pub sent : Text → DeliveryResult
sent note = record { status = codes "sent"; note = note }

unfoldable pub resend_result : Text → ResendAnswer → DeliveryResult
resend_result to (not_serialized e) = failed (codes "No se pudo serializar el correo: " ++ e)
resend_result to (not_created e) = failed (codes "No se pudo crear la solicitud a Resend: " ++ e)
resend_result to (not_sent e) = failed (codes "No se pudo enviar el correo con Resend: " ++ e)
resend_result to (responded code) =
    if ltb code 200 || leb 300 code
    then failed (codes "Resend respondió con status " ++ decimal code ++ codes ".")
    else sent (codes "Correo enviado a " ++ to ++ codes " vía Resend.")

-- `sendViaResend`
unfoldable pub send_via_resend : Resend → Config → Text → Text → Text → DeliveryResult
send_via_resend post cfg to subject body = resend_result to (
    post cfg.resend_api_key (record {
      from = codes cfg.resend_from;
      to = to;
      subject = subject;
      html = text_to_html body;
      text_body = body;
    }))

abbrev pub smtp_result : (SmtpStep → Text) → Text → Option SmtpStep → DeliveryResult
smtp_result shown to none = sent (codes "Correo enviado a " ++ to ++ codes ".")
smtp_result shown to (some e) = failed (codes "No se pudo enviar: " ++ shown e)

-- The servers, and the text of an error at a step.
pub record Servers : Type 0 where
  pub post : Resend
  pub accepts : SmtpStep → Bool
  pub offers_tls : Bool
  pub shown : SmtpStep → Text

-- `send`
unfoldable pub send : Servers → Config → Text → Text → Text → DeliveryResult
send net cfg to subject body =
    if cfg.resend_api_key != "" && cfg.resend_from != ""
    then send_via_resend net.post cfg to subject body
    else if cfg.smtp_host == "" || cfg.smtp_from == ""
    then record { status = codes "logged"; note = codes "No hay proveedor de correo configurado." }
    else smtp_result net.shown to (smtp_send net.accepts net.offers_tls cfg to subject body).1
