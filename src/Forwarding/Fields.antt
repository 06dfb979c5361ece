-- ===== src/Forwarding/Fields.antt =====
-- pfrule.go: the fields of a rule as VBoxManage reads them.
