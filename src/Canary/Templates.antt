-- ===== src/Canary/Templates.antt =====
-- The documents that sentinel/engine/canary.py deploys. Bytes are numbers.
use sentinel_antivirus.Prelude.{ℕ, List, [], ◌∷◌, ◌++◌, nat_eq, pair_eq, Text, codes, text_eq}

pub record CanaryTemplate : Type 0 where
  pub filename : Text
  pub extension : Text
  pub sample_content : Text

-- The end of the header of the two zip files
abbrev zip_header : List ℕ → Text
zip_header tail =
    b'P' ∷ b'K' ∷ 3 ∷ 4 ∷ 20 ∷ 0 ∷ 6 ∷ 0 ∷ 8 ∷ 0 ∷ 0 ∷ 0 ∷ b'!' ∷ 0 ∷ tail ++ 0 ∷ 0 ∷ 0 ∷ 0 ∷ []

abbrev content_types : Text
content_types =
    codes
      "[Content_Types].xml<?xml version=\"1.0\" encoding=\"UTF-8\" standalone=\"yes\"?>\n<Types xmlns=\"http://schemas.openxmlformats.org/package/2006/content-types\">\n<Default Extension=\"xml\" ContentType=\"application/xml\"/>\n"

abbrev financial_statement : CanaryTemplate
financial_statement = record {
  filename = codes "!00_financial_statement.docx";
  extension = codes ".docx";
  sample_content =
      zip_header (1 ∷ 2 ∷ 3 ∷ 4 ∷ [])
      ++ content_types
      ++ codes
          "<Override PartName=\"/word/document.xml\" ContentType=\"application/vnd.openxmlformats-officedocument.wordprocessingml.document.main+xml\"/>\n"
      ++ codes "</Types>\n<!-- Sentinel Canary Document Vault 2026 -->";
}

abbrev credentials_vault : CanaryTemplate
credentials_vault = record {
  filename = codes "!00_credentials_vault.xlsx";
  extension = codes ".xlsx";
  sample_content =
      zip_header (5 ∷ 6 ∷ 7 ∷ 8 ∷ [])
      ++ content_types
      ++ codes
          "<Override PartName=\"/xl/workbook.xml\" ContentType=\"application/vnd.openxmlformats-officedocument.spreadsheetml.sheet.main+xml\"/>\n"
      ++ codes "</Types>\n<!-- Sentinel Financial Record Trap -->";
}

abbrev cloud_backup_keys : CanaryTemplate
cloud_backup_keys = record {
  filename = codes "!00_cloud_backup_keys.pdf";
  extension = codes ".pdf";
  sample_content =
      codes "%PDF-1.5\n%"
      ++ (226 ∷ 227 ∷ 207 ∷ 211 ∷ [])
      ++ codes "\n1 0 obj\n<< /Type /Catalog /Pages 2 0 R >>\nendobj\n"
      ++ codes "2 0 obj\n<< /Type /Pages /Kids [3 0 R] /Count 1 >>\nendobj\n"
      ++ codes
          "3 0 obj\n<< /Type /Page /Parent 2 0 R /Resources <<>> /MediaBox [0 0 612 792] >>\nendobj\n"
      ++ codes
          "xref\n0 4\n0000000000 65535 f \n0000000015 00000 n \n0000000068 00000 n \n0000000125 00000 n \n"
      ++ codes "trailer\n<< /Size 4 /Root 1 0 R >>\nstartxref\n200\n%%EOF\n";
}

-- `CANARY_TEMPLATES`
abbrev pub canary_templates : List CanaryTemplate
canary_templates = financial_statement ∷ credentials_vault ∷ cloud_backup_keys ∷ []
