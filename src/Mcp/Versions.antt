-- ===== src/Mcp/Versions.antt =====
-- What the check of the protocol headers lets through.
use open_remote_commander.Prelude.{
  ◌≡◌, ◌≢◌, ◌↔◌, refl, sym, ◌∙◌, ◌⊎◌, inl, inr, String, Bool, true, false, not, ◌&&◌, Result, ok,
  ◌>>◌, fail_if, Bool-cases, str_eq, eq_iff, arith, trim_space,
}
use open_remote_commander.Mcp.Headers.{
  RpcRequest, Json, ProtocolHeaders, modern_version, legacy_version, meta_version_of, differs,
  is_modern, validate_headers,
}

-- A header that is absent or says what it should.
abbrev pub Fits : String → String → Type 0
Fits given wanted = (given ≡ "") ⊎ (given ≡ wanted)

-- The rules of the protocol, for a request that counts as modern or not.
pub record Follows (json : Json) (h : ProtocolHeaders) (req : RpcRequest) (modern : Bool)
    : Type 0 where
  pub known :
      (trim_space h.protocol_version ≡ "")
      ⊎ (trim_space h.protocol_version ≡ modern_version)
      ⊎ (trim_space h.protocol_version ≡ legacy_version)
  pub is_new :
      modern ≡ true
      → req.method ≢ "server/discover"
      → (trim_space h.protocol_version ≡ modern_version)
        × (meta_version_of json req ≡ modern_version)
  pub is_old :
      modern ≡ false
      → (req.method ≢ "server/discover")
        × (trim_space h.protocol_version ≢ modern_version)
        × (meta_version_of json req ≢ modern_version)
  pub method_fits : Fits (trim_space h.mcp_method) req.method
  pub name_fits :
      req.method ≡ "tools/call" → Fits (trim_space h.mcp_name) (json.tool_name req.params)

-- The checks over the trimmed texts, one after the other.
abbrev checks : String → String → String → String → String → String → Result String Bool
checks header meta method hm hn tool = do
  let modern = is_modern method header meta
  let strict = modern && not (str_eq method "server/discover")
  fail_if (differs header modern_version && not (str_eq header legacy_version))
      "unsupported protocol version"
  fail_if (strict && str_eq header "") "MCP-Protocol-Version header is required for modern requests"
  fail_if (strict && str_eq meta "")
      "modern requests require _meta io.modelcontextprotocol/protocolVersion"
  fail_if (strict && not (str_eq header meta))
      "protocol version header does not match request metadata"
  fail_if (differs hm method) "Mcp-Method does not match request method"
  fail_if (str_eq method "tools/call" && differs hn tool) "Mcp-Name does not match tool"
  ok modern

module _ (header meta method hm hn tool : String) (modern : Bool) where
  abbrev Rules : Type 0
  Rules =
      ((header ≡ "") ⊎ (header ≡ modern_version) ⊎ (header ≡ legacy_version))
      × (modern ≡ true
          → method ≢ "server/discover"
          → (header ≡ modern_version) × (meta ≡ modern_version))
      × (modern ≡ false
          → (method ≢ "server/discover") × (header ≢ modern_version) × (meta ≢ modern_version))
      × Fits hm method
      × (method ≡ "tools/call" → Fits hn tool)

  -- What each test of the texts says of them.
  checks-Rules : checks header meta method hm hn tool ≡ ok modern → Rules
  checks-Rules e =
      let a = eq_iff header "" in
      let b = eq_iff header modern_version in
      let c = eq_iff header legacy_version in
      let d = eq_iff meta modern_version in
      let f = eq_iff header meta in
      let g = eq_iff method "server/discover" in
      (
        ground arith,
        λ m n. ground arith,
        λ m. ground arith,
        ground (arith, eq_iff hm "", eq_iff hm method),
        λ m. ground (arith, eq_iff hn "", eq_iff hn tool, eq_iff method "tools/call"),
      )

  abbrev strict : Bool
  strict = is_modern method header meta && not (str_eq method "server/discover")

  Rules-known :
      Rules → (differs header modern_version && not (str_eq header legacy_version)) ≡ false
  Rules-known (inl e, _, _, _, _) = rw e refl
  Rules-known (inr (inl e), _, _, _, _) = rw e refl
  Rules-known (inr (inr e), _, _, _, _) = rw e refl

  not_discover : str_eq method "server/discover" ≡ false → method ≢ "server/discover"
  not_discover d e = let same = (eq_iff method "server/discover").1 e in cc

  Rules-modern : Rules → is_modern method header meta ≡ modern
  Rules-modern (known, is_new, is_old, _, _) = elim (Bool-cases modern) [
    | inl m ↦ elim (Bool-cases (str_eq method "server/discover")) [
      | inl d ↦ ground arith
      | inr d ↦
          let (h, k) = is_new m (not_discover d) in ground (arith, eq_iff header modern_version)
    ]
    | inr m ↦
        let (d, h, k) = is_old m in
        ground (
          arith,
          eq_iff header modern_version,
          eq_iff meta modern_version,
          eq_iff method "server/discover",
        )
  ]

  -- Where the rules ask for the modern version, both texts say it.
  Rules-strict : Rules → strict ≡ true → (header ≡ modern_version) × (meta ≡ modern_version)
  Rules-strict rules s =
      let on : is_modern method header meta ≡ true = ground arith in
      let other : str_eq method "server/discover" ≡ false = ground arith in
      rules.1 (sym (Rules-modern rules) ∙ on) (not_discover other)

  -- The three tests of a strict request pass.
  Rules-strict_tests :
      Rules
      → ((strict && str_eq header "") ≡ false)
        × ((strict && str_eq meta "") ≡ false)
        × ((strict && not (str_eq header meta)) ≡ false)
  Rules-strict_tests rules = elim (Bool-cases strict) [
    | inl s ↦
        let (h, k) = Rules-strict rules s in
        (
          ground (arith, eq_iff header "", eq_iff "" modern_version),
          ground (arith, eq_iff meta "", eq_iff "" modern_version),
          ground (arith, eq_iff header meta),
        )
    | inr s ↦ (rw s refl, rw s refl, rw s refl)
  ]

  Rules-checks : Rules → checks header meta method hm hn tool ≡ ok modern
  Rules-checks rules =
      let t5 : differs hm method ≡ false =
        ground (arith, eq_iff hm "", eq_iff hm method, rules.3) in
      let t6 : (str_eq method "tools/call" && differs hn tool) ≡ false =
        ground (arith, eq_iff hn "", eq_iff hn tool, eq_iff method "tools/call", rules.4) in
      let (t2, t3, t4) = Rules-strict_tests rules in
      rw (Rules-known rules, t2, t3, t4, t5, t6, Rules-modern rules) refl

-- A request is let through, as a modern one or not, exactly where it follows the rules.
pub validate_headers_iff :
    (json : Json) (h : ProtocolHeaders) (req : RpcRequest) (modern : Bool)
    → (validate_headers json h req ≡ ok modern) ↔ Follows json h req modern
unfolding validate_headers
validate_headers_iff json h req modern = (
  λ e.
      let (a, b, c, d, f) = checks-Rules header meta req.method hm hn tool modern e in
      record { known = a; is_new = b; is_old = c; method_fits = d; name_fits = f },
  λ f.
      Rules-checks header meta req.method hm hn tool modern
        (f.known, f.is_new, f.is_old, f.method_fits, f.name_fits),
)
  where
    header : String
    header = trim_space h.protocol_version

    meta : String
    meta = meta_version_of json req

    hm : String
    hm = trim_space h.mcp_method

    hn : String
    hn = trim_space h.mcp_name

    tool : String
    tool = json.tool_name req.params
