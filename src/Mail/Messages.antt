-- ===== src/Mail/Messages.antt =====
-- internal/notify/mailer.go: the subjects and the bodies of the mails.
use proindustrial_backend.Common.{[], if◌then◌else◌, nat_eq, string_eq, text_eq, ℕ, ◌++◌, ◌==◌, ◌∷◌}
use proindustrial_backend.Common.Text.{Text, codes, trim_space}
use proindustrial_backend.Mail.{DeliveryResult, Servers, lines, send}
use proindustrial_backend.Quotes.Inbox.{
  Mail, new_quote_notification, quote_reply, quote_submit_confirmation,
}
use proindustrial_backend.Settings.{Config}

-- `strings.TrimRight(s, "/")`
abbrev put_slash : ℕ → Text → Text
put_slash c [] = if c == b'/' then [] else c ∷ []
put_slash c (x ∷ s) = c ∷ x ∷ s

unfoldable pub trim_slashes : Text → Text
trim_slashes [] = []
trim_slashes (c ∷ s) = put_slash c (trim_slashes s)

module _ (net : Servers) (cfg : Config) where
  abbrev pub base_url : Text
  base_url = trim_slashes (codes cfg.app_base_url)

  abbrev pub approval_body : Text → Text → Text → Text
  approval_body to company_name initial_password = trim_space (
      lines (
        []
        ∷ codes "Hola,"
        ∷ []
        ∷ (codes "Tu empresa " ++ company_name ++ codes " fue aprobada en PuntoFusión.")
        ∷ []
        ∷ codes "Ya puedes ingresar al panel en:"
        ∷ (base_url ++ codes "/panel/login")
        ∷ []
        ∷ (codes "Usuario: " ++ to)
        ∷ (codes "Contraseña inicial: " ++ initial_password)
        ∷ []
        ∷ codes "Por seguridad, al ingresar deberás cambiar tu contraseña inmediatamente."
        ∷ []
        ∷ []))

  -- `SendApprovalEmail`
  unfoldable pub send_approval_email : Text → Text → Text → DeliveryResult
  send_approval_email to company_name initial_password =
      send net cfg to (codes "Tu empresa fue aprobada en PuntoFusión")
        (approval_body to company_name initial_password)

  abbrev pub reason_block : Text → Text
  reason_block [] = []
  reason_block (c ∷ s) = lines ([] ∷ [] ∷ codes "Motivo:" ∷ (c ∷ s) ∷ [])

  abbrev pub rejection_body : Text → Text → Text
  rejection_body company_name reason = trim_space (
      lines (
        []
        ∷ codes "Hola,"
        ∷ []
        ∷ (codes "Revisamos la solicitud de registro de "
            ++ company_name
            ++ codes " en PuntoFusión y, por ahora, no pudimos aprobarla."
            ++ reason_block (trim_space reason))
        ∷ []
        ∷ codes
            "Si crees que se trata de un error, o quieres corregir la información y volver a postular, escríbenos a contacto@puntofusion.cl y lo revisamos contigo."
        ∷ []
        ∷ codes "Gracias por tu interés."
        ∷ []
        ∷ codes "— El equipo de PuntoFusión"
        ∷ []
        ∷ []))

  -- `SendRejectionEmail`
  unfoldable pub send_rejection_email : Text → Text → Text → DeliveryResult
  send_rejection_email to company_name reason =
      send net cfg to (codes "Sobre tu solicitud de registro en PuntoFusión")
        (rejection_body company_name reason)

  abbrev pub reply_body : Text → Text → Text → Text → Text
  reply_body requester_name company_name service reply_text = trim_space (
      lines (
        []
        ∷ (codes "Hola " ++ requester_name ++ codes ",")
        ∷ []
        ∷ (company_name
            ++ codes " ha respondido a tu solicitud de cotización para \""
            ++ service
            ++ codes "\":")
        ∷ []
        ∷ reply_text
        ∷ []
        ∷ codes "Si tienes dudas adicionales puedes responder directamente a este correo."
        ∷ []
        ∷ codes "— El equipo de PuntoFusión"
        ∷ []
        ∷ []))

  -- `SendQuoteReply`
  unfoldable pub send_quote_reply : Text → Text → Text → Text → Text → DeliveryResult
  send_quote_reply to requester_name company_name service reply_text =
      send net cfg to (codes "Respuesta a tu solicitud: " ++ service)
        (reply_body requester_name company_name service reply_text)

  abbrev pub requester_line : Text → Text → Text
  requester_line name [] = name
  requester_line name (c ∷ company) = name ++ codes " (" ++ (c ∷ company) ++ codes ")"

  abbrev pub desc_line : Text → Text
  desc_line [] = []
  desc_line (c ∷ s) = lines ([] ∷ codes "Detalle:" ∷ (c ∷ s) ∷ [] ∷ [])

  abbrev pub notification_body : Text → Text → Text → Text → Text → Text
  notification_body company_name requester_name requester_company service description = trim_space (
      lines (
        []
        ∷ (codes "Hola " ++ company_name ++ codes ",")
        ∷ []
        ∷ (requester_line requester_name requester_company
            ++ codes " ha solicitado una cotización para \""
            ++ service
            ++ codes "\".")
        ∷ desc_line description
        ∷ codes "Ingresa a tu panel para ver el detalle y responder:"
        ∷ (base_url ++ codes "/panel/solicitudes")
        ∷ []
        ∷ codes "— PuntoFusión"
        ∷ []
        ∷ []))

  -- `SendNewQuoteNotification`
  unfoldable pub send_new_quote_notification :
      Text → Text → Text → Text → Text → Text → DeliveryResult
  send_new_quote_notification to company_name requester_name requester_company service description =
      send net cfg to (codes "Nueva solicitud de cotización — " ++ service)
        (notification_body company_name requester_name requester_company service description)

  abbrev pub confirmation_body : Text → Text → Text → Text
  confirmation_body requester_name company_name service = trim_space (
      lines (
        []
        ∷ (codes "Hola " ++ requester_name ++ codes ",")
        ∷ []
        ∷ (codes "Tu solicitud de cotización para \""
            ++ service
            ++ codes "\" fue enviada exitosamente a "
            ++ company_name
            ++ codes ".")
        ∷ []
        ∷ codes "Te contactarán a la brevedad a este correo."
        ∷ []
        ∷ codes "— PuntoFusión"
        ∷ []
        ∷ []))

  -- `SendQuoteSubmitConfirmation`
  unfoldable pub send_quote_submit_confirmation : Text → Text → Text → Text → DeliveryResult
  send_quote_submit_confirmation to requester_name company_name service =
      send net cfg to (codes "Tu solicitud fue enviada a " ++ company_name)
        (confirmation_body requester_name company_name service)

  -- The mail that a handler of the quotations asks for.
  unfoldable pub deliver : Mail → DeliveryResult
  deliver (new_quote_notification to name requester company service description) =
      send_new_quote_notification to name requester company service description
  deliver (quote_submit_confirmation to requester name service) =
      send_quote_submit_confirmation to requester name service
  deliver (quote_reply to requester name service note) =
      send_quote_reply to requester name service note
