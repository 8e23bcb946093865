-- ===== src/Task/Frame.antt =====
-- What the trap frame of 10-SystemCall/src/sys.s keeps: trap_vector with reg_save and reg_load.
