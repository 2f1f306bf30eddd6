-- ===== src/Tests/Forms.antt =====
-- The validators of forms on concrete inputs.
use mailserver.Prelude.{
  is_ascii_alphanumeric, byte_len, trim, is_empty, ◌≡◌, refl, true, some, codes, to_ascii_lowercase,
  is_ascii_uppercase,
}
use mailserver.Config.Files.{mailbox_of}
use mailserver.Forms.{
  ok, err, wrong_form, validate_username, validate_domain_name, validate_mail_address,
}
use mailserver.Forms.Canonical.{mailbox_of-validated}

validate_mail_address_test :
    (validate_mail_address (codes " *@example.org") true ≡ ok (codes "*@example.org"))
    × (validate_mail_address (codes "a@b@c") true ≡ err wrong_form)
unfolding validate_mail_address is_empty trim byte_len
validate_mail_address_test = (refl, refl)

mailbox_of-validated_example :
    mailbox_of to_ascii_lowercase (record {
      username = codes "info";
      password_hash = codes "$2b$";
      active = true;
      domain_name = some (codes "b.org");
    })
    ≡ some (codes "info", codes "b.org")
unfolding validate_username is_empty to_ascii_lowercase trim byte_len is_ascii_alphanumeric
    validate_domain_name
mailbox_of-validated_example =
    mailbox_of-validated to_ascii_lowercase is_ascii_uppercase (codes " Info") (codes "B.org")
      (codes "$2b$") (λ s ascii. refl) refl refl
